-- ===== src/Streams/Stops.antt =====
-- Which streams leave, and which clients are stopped.
use forward_epics_to_kafka.Base.{
  ℕ, ◌≡◌, ◌≢◌, refl, ap, ◌∙◌, String, Bool, false, not, none, List, [], ◌∷◌, map, keep, find_if,
  All, arith, eq_iff, ◌==◌, ◌||◌, if◌then◌else◌, inl, inr, Bool-cases, Distinct, Distinct-keep,
}
use forward_epics_to_kafka.Stream.{ClientApi, Stream}
use forward_epics_to_kafka.Stream.Fill.{update_at, update_at_ne}
use forward_epics_to_kafka.Streams.{
  Streams, has_name, get_stream_by_channel_name, stop_each, stop_channel, failed, remove_failed,
  check_stream_status,
}

abbrev pub mem : ℕ → List ℕ → Bool
mem a [] = false
mem a (b ∷ bs) = (a == b) || mem a bs

find_if_kept :
    (name other : String) (ss : List Stream)
    → other ≢ name
    → find_if (has_name other) (keep (λ s. not (has_name name s)) ss) ≡ find_if (has_name other) ss
unfolding has_name
find_if_kept name other [] h = refl
find_if_kept name other (s ∷ ss) h =
    grind
      (arith, eq_iff s.channel_name name, eq_iff s.channel_name other, find_if_kept name other ss h)

find_if_gone :
    (name : String) (ss : List Stream)
    → find_if (has_name name) (keep (λ s. not (has_name name s)) ss) ≡ none
find_if_gone name [] = refl
find_if_gone name (s ∷ ss) = ground (arith, find_if_gone name ss)

apart : (a : ℕ) (as' : List ℕ) → All (λ b. b ≢ a) as' → mem a as' ≡ false
apart a [] h = refl
apart a (b ∷ bs) h = ground (arith, h.0, apart a bs h.1)

module _ {C : Type 0} (api : ClientApi C) where
  -- Clients at addresses of their own are each stopped once, and the others stay.
  pub stop_each_lem :
      (as' : List ℕ) (clients : ℕ → C) (a : ℕ)
      → Distinct as'
      → stop_each api as' clients a ≡ (if mem a as' then api.stop (clients a) else clients a)
  stop_each_lem [] clients a h = refl
  stop_each_lem (b ∷ bs) clients a h =
      stop_each_lem bs (update_at clients b (api.stop (clients b))) a h.1
      ∙ elim (Bool-cases (a == b)) [ inl e ↦ ground (arith, apart b bs h.0) | inr e ↦ ground arith ]

abbrev pub addresses : List Stream → List ℕ
addresses ss = map (λ s. s.client) ss

module _ {C : Type 0} (api : ClientApi C) where
  -- After a channel is stopped no stream has its name and every other name finds the stream that it
  -- found before. Exactly the clients of the streams that left are stopped, once each.
  pub stop_channel_lem :
      (name other : String) (st : Streams C) (a : ℕ)
      → Distinct (addresses st.stream_pointers)
      → other ≢ name
      → (get_stream_by_channel_name name (stop_channel api name st) ≡ none)
        × (get_stream_by_channel_name other (stop_channel api name st)
            ≡ get_stream_by_channel_name other st)
        × ((stop_channel api name st).clients a ≡ (
            if mem a (addresses (keep (has_name name) st.stream_pointers))
            then api.stop (st.clients a)
            else st.clients a))
  unfolding stop_channel get_stream_by_channel_name
  stop_channel_lem name other st a d h = (
    find_if_gone name st.stream_pointers,
    find_if_kept name other st.stream_pointers h,
    stop_each_lem api _ st.clients a
        (Distinct-keep (λ s. s.client) (has_name name) st.stream_pointers d),
  )

  failed_agree :
      (p : Bool → Bool) (a : ℕ) (v : C) (clients : ℕ → C) (ss : List Stream)
      → All (λ b. b ≢ a) (addresses ss)
      → keep (λ s. p (failed api (update_at clients a v) s)) ss
        ≡ keep (λ s. p (failed api clients s)) ss
  failed_agree p a v clients [] h = refl
  failed_agree p a v clients (s ∷ ss) h = rw (update_at_ne clients a v s.client h.0) (
      ap (λ rest. if p (failed api clients s) then s ∷ rest else rest)
        (failed_agree p a v clients ss h.1))

  -- The streams that stay and those that leave, judged by the clients as they were.
  pub remove_failed_lem :
      (ss : List Stream) (clients : ℕ → C)
      → Distinct (addresses ss)
      → let gone = addresses (keep (failed api clients) ss) in
        remove_failed api ss clients
        ≡ (keep (λ s. not (failed api clients s)) ss, gone, stop_each api gone clients)
  unfolding remove_failed
  remove_failed_lem [] clients d = refl
  remove_failed_lem (s ∷ ss) clients d = elim (Bool-cases (failed api clients s)) [
    | inl e ↦
        let v = api.stop (clients s.client) in
        rw (e, remove_failed)
          (rw (remove_failed_lem ss (update_at clients s.client v) d.1) (
            rw (failed_agree not s.client v clients ss d.0)
              (rw (failed_agree (λ b. b) s.client v clients ss d.0) refl)))
    | inr e ↦ rw (e, remove_failed) (rw (remove_failed_lem ss clients d.1) refl)
  ]

  -- The check keeps exactly the streams whose client has no negative status, in order. The clients of
  -- the others are stopped, twice each, and no other client changes.
  pub check_stream_status_lem :
      (st : Streams C) (a : ℕ)
      → Distinct (addresses st.stream_pointers)
      → ((check_stream_status api st).stream_pointers
          ≡ keep (λ s. not (failed api st.clients s)) st.stream_pointers)
        × ((check_stream_status api st).clients a ≡ (
            if mem a (addresses (keep (failed api st.clients) st.stream_pointers))
            then api.stop (api.stop (st.clients a))
            else st.clients a))
  unfolding check_stream_status
  check_stream_status_lem st a d =
      let gone = addresses (keep (failed api st.clients) st.stream_pointers) in
      let apart = Distinct-keep (λ s. s.client) (failed api st.clients) st.stream_pointers d in
      rw (remove_failed_lem st.stream_pointers st.clients d, check_stream_status)
        (
          refl,
          ground (
            arith,
            stop_each_lem api gone (stop_each api gone st.clients) a apart,
            stop_each_lem api gone st.clients a apart,
          ),
        )
