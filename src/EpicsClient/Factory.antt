-- ===== src/EpicsClient/Factory.antt =====
-- src/EpicsClient/EpicsClientFactory.cpp: the EPICS client factories run while an
-- `EpicsClientFactoryInit` is alive.
use forward_epics_to_kafka.Base.{
  ℕ, suc, ◌+◌, ◌≡◌, refl, Bool, true, false, ◌==◌, if◌then◌else◌, arith,
}
use forward_epics_to_kafka.Base.Int.{ℤ, pos, negsuc, ◌+ℤ◌, ltb_ℤ}

-- `count` is the static counter, `running` whether the factories are started; `calls` counts how
-- often they were.
pub record Factories : Type 0 where
  pub count : ℤ
  pub running : Bool
  pub calls : ℕ

abbrev pub no_factories : Factories
no_factories = record { count = pos 0; running = false; calls = 0 }

is_zero : ℤ → Bool
is_zero (pos n) = n == 0
is_zero (negsuc n) = false

-- `auto c = Count++`, and the constructor.
unfoldable pub make_init : Factories → Factories
unfolding is_zero ◌+ℤ◌
make_init f =
    let c = f.count in
    let g = record f { count = f.count +ℤ pos 1 } in
    if is_zero c then record g { running = true; calls = g.calls + 1 } else g

-- `auto c = --Count`, and the destructor. A negative count is taken for zero.
unfoldable pub destroy_init : Factories → Factories
unfolding is_zero ◌+ℤ◌
destroy_init f =
    let n = f.count +ℤ negsuc 0 in
    let c = if ltb_ℤ n (pos 0) then pos 0 else n in
    let g = record f { count = n } in if is_zero c then record g { running = false } else g

-- `n` objects are alive, and the factories run exactly if there are any.
pub record Alive (n : ℕ) (f : Factories) : Type 0 where
  pub counted : f.count ≡ pos n
  pub runs : f.running ≡ (if n == 0 then false else true)

make_init-Alive : (n : ℕ) (f : Factories) → Alive n f → Alive (suc n) (make_init f)
unfolding make_init
make_init-Alive n f h = record { counted = ground arith; runs = ground arith }

destroy_init-Alive : (n : ℕ) (f : Factories) → Alive (suc n) f → Alive n (destroy_init f)
unfolding destroy_init
destroy_init-Alive n f h = record { counted = ground arith; runs = ground arith }

-- A history in which no object is destroyed before it is made: `n` is the number alive at its end.
pub data History : ℕ → Factories → Type 0 where
  begin : History 0 no_factories
  made : {n : ℕ} {f : Factories} → History n f → History (suc n) (make_init f)
  gone : {n : ℕ} {f : Factories} → History (suc n) f → History n (destroy_init f)

-- After any history the counter is the number of objects alive, and the factories run exactly while
-- there is one.
pub History-Alive : (n : ℕ) (f : Factories) → History n f → Alive n f
History-Alive n f begin = record { counted = refl; runs = refl }
History-Alive n f (made h) = make_init-Alive _ _ (History-Alive _ _ h)
History-Alive n f (gone h) = destroy_init-Alive _ _ (History-Alive _ _ h)
