-- ===== src/TdcTime/Stamps.antt =====
-- Seconds and nanoseconds can be read back from a time stamp.
use forward_epics_to_kafka.Base.{
  ℕ, ◌+◌, ◌*◌, ◌/◌, ◌%◌, ◌^◌, ◌<◌, ◌≡◌, ◌⊎◌, inl, inr, refl, String, true, false, none, some, List,
  [], ◌∷◌, map, length, All, ok, err, runtime_error, str_eq, arith,
}
use forward_epics_to_kafka.Base.Int.{ℤ, pos, ◌+ℤ◌, ◌*ℤ◌}
use forward_epics_to_kafka.TdcTime.{
  to_uint64, stamps, calc_timestamps, PvStructure, TdcMessage, expected_struct_type, create,
}

-- The array of a chopper, from pairs of seconds and nanoseconds.
abbrev pub interleaved : List (ℕ × ℕ) → List ℤ
interleaved [] = []
interleaved ((s, n) ∷ ps) = pos s ∷ pos n ∷ interleaved ps

abbrev pub InRange : ℕ × ℕ → Type 0
InRange (s, n) = (s < 2 ^ 31) × (n < 1000000000)

abbrev pub split_stamp : ℕ → ℕ × ℕ
split_stamp t = (t / 1000000000, t % 1000000000)

one_stamp :
    (s n : ℕ) → InRange (s, n) → to_uint64 ((pos s *ℤ pos 1000000000) +ℤ pos n) ≡ s * 1000000000 + n
unfolding to_uint64 ◌+ℤ◌ ◌*ℤ◌
one_stamp s n h = ground (arith, h.0, h.1)

stamps_read : (ps : List (ℕ × ℕ)) → All InRange ps → map split_stamp (stamps (interleaved ps)) ≡ ps
unfolding stamps
stamps_read [] h = refl
stamps_read ((s, n) ∷ ps) h =
    rw (one_stamp s n h.0, stamps)
      (rw (stamps_read ps h.1, stamps)
        (let d : (s * 1000000000 + n) / 1000000000 ≡ s = omega (arith, h.0.1) in
          let m : (s * 1000000000 + n) % 1000000000 ≡ n = omega (arith, h.0.1) in rw (d, m) refl))

even_length : (ps : List (ℕ × ℕ)) → length (interleaved ps) % 2 ≡ 0
even_length [] = refl
even_length ((s, n) ∷ ps) = omega (arith, even_length ps)

abbrev pub chopper : List (ℕ × ℕ) → PvStructure
chopper ps = record { id = expected_struct_type; is_int = true; values = interleaved ps }

calc_timestamps-interleaved :
    (ps : List (ℕ × ℕ)) → calc_timestamps (interleaved ps) ≡ ok (stamps (interleaved ps))
unfolding calc_timestamps
calc_timestamps-interleaved ps = rw (even_length ps, calc_timestamps) refl

-- The array of one or more pairs of seconds, below 2^31, and nanoseconds, below a second, is sent as
-- one message with the channel's name and the next number, and the pairs can be read back from its
-- time stamps, in order.
pub create-chopper :
    (channel : String) (p : ℕ × ℕ) (ps : List (ℕ × ℕ)) (n : ℕ)
    → All InRange (p ∷ ps)
    → (m : TdcMessage) × (create channel (chopper (p ∷ ps)) n ≡ (some m, (n + 1) % 2 ^ 64))
      × (m.name ≡ channel)
      × (map split_stamp m.timestamps ≡ p ∷ ps)
      × (m.sequence_counter ≡ n)
unfolding create stamps
create-chopper channel (s, k) ps n h =
    let ts = stamps (interleaved ((s, k) ∷ ps)) in
    (
      record { name = channel; timestamps = ts; sequence_counter = n },
      rw (calc_timestamps-interleaved ((s, k) ∷ ps), create) refl,
      refl,
      stamps_read ((s, k) ∷ ps) h,
      refl,
    )

calc_timestamps_odd :
    (xs : List ℤ)
    → length xs % 2 ≡ 1
    → calc_timestamps xs ≡ err (runtime_error "Size of pvAccess array is not a multiple of two.")
unfolding calc_timestamps
calc_timestamps_odd xs e = rw (e, calc_timestamps) refl

-- An array of odd length, or of other elements, or a structure of another type, sends nothing and uses
-- no number.
pub create_refused :
    (channel : String) (v : PvStructure) (n : ℕ)
    → (str_eq v.id expected_struct_type ≡ false) ⊎ ((v.is_int ≡ false) ⊎ (length v.values % 2 ≡ 1))
    → create channel v n ≡ (none, n)
unfolding create
create_refused channel v n (inl e) = rw (e, create) refl
create_refused channel v n (inr (inl e)) = ground (arith, e)
create_refused channel v n (inr (inr e)) =
    rw (calc_timestamps_odd v.values e, create) (ground arith)
