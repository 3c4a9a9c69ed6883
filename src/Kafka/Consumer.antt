-- ===== src/Kafka/Consumer.antt =====
-- src/KafkaW/Consumer.cpp, src/Config.cpp and src/KafkaW/BrokerSettings.h: the partitions of the topic
-- of commands, the results of a poll, and the application of settings.
use forward_epics_to_kafka.Base.{
  ℕ, ◌≡◌, refl, String, Bool, Option, none, some, List, [], ◌∷◌, find_if, map, All, Result, ok, err,
  runtime_error, metadata_exception, ltb, leb, str_eq, if◌then◌else◌, arith, ◌≤◌, ◌==◌, suc, inl,
  inr, Bool-cases, ◌>>=◌,
}

pub record TopicMetadata : Type 0 where
  pub topic : String
  pub partitions : List ℕ

-- `updateMetadata` gives the topics or fails; then `findTopic`.
unfoldable pub find_topic : Option (List TopicMetadata) → String → Result TopicMetadata
find_topic none name =
    err (metadata_exception "Consumer::updateMetadata() - error while retrieving metadata.")
find_topic (some ts) name = elim (find_if (λ t. str_eq t.topic name) ts) [
  | none ↦ err (runtime_error "Config topic does not exist")
  | some t ↦ ok t
]

-- `std::sort`.
abbrev pub insert : ℕ → List ℕ → List ℕ
insert n [] = n ∷ []
insert n (k ∷ ks) = if leb n k then n ∷ k ∷ ks else k ∷ insert n ks

abbrev pub sort : List ℕ → List ℕ
sort [] = []
sort (n ∷ ns) = insert n (sort ns)

unfoldable pub get_topic_partition_numbers : Option (List TopicMetadata) → String → Result (List ℕ)
unfolding find_topic
get_topic_partition_numbers metadata name = find_topic metadata name >>= λ t. ok (sort t.partitions)

-- What is assigned: each partition with its high watermark, which librdkafka tells.
unfoldable pub add_topic :
    Option (List TopicMetadata) → (ℕ → ℕ) → Bool → String → Result (List (ℕ × ℕ))
unfolding get_topic_partition_numbers
add_topic metadata high assigned name = get_topic_partition_numbers metadata name >>= λ ns.
    if assigned then ok (map (λ n. (n, high n)) ns) else err (runtime_error "Could not subscribe")

-- The error code of a message that was consumed.
pub data ConsumeCode : Type 0 where
  no_error partition_eof other_error : ConsumeCode

pub data PollStatus : Type 0 where
  status_message : String → PollStatus
  status_empty status_end_of_partition status_error : PollStatus

-- `text` is what the payload reads as up to the first zero byte, `len` its length.
unfoldable pub poll : ConsumeCode → ℕ → String → PollStatus
poll no_error len text = if ltb 0 len then status_message text else status_empty
poll partition_eof len text = status_end_of_partition
poll other_error len text = status_error

-- `Listener::poll`: the callback gets messages alone.
unfoldable pub listen : {S : Type 0} → (String → S → S) → PollStatus → S → S
listen callback (status_message text) s = callback text s
listen callback status_empty s = s
listen callback status_end_of_partition s = s
listen callback status_error s = s

-- The constructor of `Listener`: no metadata is logged, and any other exception goes on.
unfoldable pub make_listener : Result (List (ℕ × ℕ)) → Result (List (ℕ × ℕ))
make_listener (ok ps) = ok ps
make_listener (err (metadata_exception s)) = ok []
make_listener (err e) = err e

abbrev pub Sorted : List ℕ → Type 0
Sorted [] = Unit
Sorted (n ∷ ns) = All (λ k. n ≤ k) ns × Sorted ns

abbrev pub count : ℕ → List ℕ → ℕ
count n [] = 0
count n (k ∷ ks) = if n == k then suc (count n ks) else count n ks

All-insert : (m n : ℕ) (ks : List ℕ) → m ≤ n → All (λ k. m ≤ k) ks → All (λ k. m ≤ k) (insert n ks)
All-insert m n [] h a = (h, tt)
All-insert m n (k ∷ ks) h a = elim (Bool-cases (leb n k)) [
  | inl e ↦ rw e (h, a)
  | inr e ↦ rw e (a.0, All-insert m n ks h a.1)
]

All-le : (m n : ℕ) (ks : List ℕ) → m ≤ n → All (λ k. n ≤ k) ks → All (λ k. m ≤ k) ks
All-le m n [] h a = tt
All-le m n (k ∷ ks) h a = (omega (arith, a.0), All-le m n ks h a.1)

insert-Sorted : (n : ℕ) (ks : List ℕ) → Sorted ks → Sorted (insert n ks)
insert-Sorted n [] s = (tt, tt)
insert-Sorted n (k ∷ ks) s = elim (Bool-cases (leb n k)) [
  | inl e ↦ let le : n ≤ k = ground (arith, e) in rw e ((le, All-le n k ks le s.0), s)
  | inr e ↦
      let le : k ≤ n = ground (arith, e) in rw e (All-insert k n ks le s.0, insert-Sorted n ks s.1)
]

sort-Sorted : (ns : List ℕ) → Sorted (sort ns)
sort-Sorted [] = tt
sort-Sorted (n ∷ ns) = insert-Sorted n (sort ns) (sort-Sorted ns)

count-insert : (m n : ℕ) (ks : List ℕ) → count m (insert n ks) ≡ count m (n ∷ ks)
count-insert m n [] = refl
count-insert m n (k ∷ ks) = ground (arith, count-insert m n ks)

count-sort : (m : ℕ) (ns : List ℕ) → count m (sort ns) ≡ count m ns
count-sort m [] = refl
count-sort m (n ∷ ns) = ground (arith, count-insert m n (sort ns), count-sort m ns)

-- With metadata that has the topic, its partitions are found in ascending order, each as often as the
-- broker names it.
pub get_topic_partition_numbers-Sorted :
    (ts : List TopicMetadata) (name : String) (t : TopicMetadata) (m : ℕ)
    → find_if (λ t. str_eq t.topic name) ts ≡ some t
    → (ns : List ℕ) × (get_topic_partition_numbers (some ts) name ≡ ok ns)
      × Sorted ns
      × (count m ns ≡ count m t.partitions)
unfolding get_topic_partition_numbers find_topic
get_topic_partition_numbers-Sorted ts name t m e = (
  sort t.partitions,
  rw (e, find_topic) refl,
  sort-Sorted t.partitions,
  count-sort m t.partitions,
)
