-- ===== src/Deliver/Limiter/Counts.antt =====
-- The limiter of internal/deliver/limiter.go under any sequence of tryAcquire and of releases of what
-- was acquired: its slots count the holders, and no slot has more than the limit.
use outboxd.Common.{
  ℕ, ◌+◌, ◌-◌, ◌≤◌, ◌≡◌, ◌≢◌, refl, true, Bytes, Option, none, some, List, [], ◌∷◌, arith, leb, ltb,
  if◌then◌else◌, str_eq, str_eq_iff,
}
use outboxd.Common.Map.{get, get-insert, get-remove}
use outboxd.Deliver.Limiter.{
  DomainLimiter, is_empty, new_domain_limiter, try_acquire, release, available,
}

-- The limiter, and the domains of the attempts that hold a slot.
pub record Holding : Type 0 where
  pub limiter : DomainLimiter
  pub held : List Bytes

unfoldable pub holders_of : Bytes → List Bytes → ℕ
holders_of d [] = 0
holders_of d (e ∷ held) = (if str_eq e d then 1 else 0) + holders_of d held

unfoldable pub drop_one : Bytes → List Bytes → List Bytes
drop_one d [] = []
drop_one d (e ∷ held) = let rest = drop_one d held in if str_eq e d then held else e ∷ rest

pub data Call : Type 0 where
  acquires releases : Bytes → Call

abbrev pub or_zero : Option ℕ → ℕ
or_zero none = 0
or_zero (some n) = n

-- An attempt releases only what it holds, and it holds nothing for the empty name.
unfoldable pub step : Call → Holding → Holding
step (acquires d) s =
    let (l, granted) = try_acquire d s.limiter in
    if granted then record { limiter = l; held = if is_empty d then s.held else d ∷ s.held } else s
step (releases d) s =
    if leb 1 (holders_of d s.held)
    then record { limiter = release d s.limiter; held = drop_one d s.held }
    else s

unfoldable pub run : List Call → Holding → Holding
run [] s = s
run (c ∷ cs) s = run cs (step c s)

-- Each slot in the map has a holder; it counts its holders, and they are at most the limit.
pub record Counts (s : Holding) : Type 0 where
  pub positive : 1 ≤ s.limiter.limit
  pub live : (d : Bytes) → get d s.limiter.slots ≢ some 0
  pub counted : (d : Bytes) → or_zero (get d s.limiter.slots) ≡ holders_of d s.held
  pub capped : (d : Bytes) → holders_of d s.held ≤ s.limiter.limit

holders-drop_one :
    (d e : Bytes) (held : List Bytes)
    → holders_of e (drop_one d held)
      ≡ (if str_eq d e then holders_of e held - 1 else holders_of e held)
unfolding holders_of drop_one
holders-drop_one d e [] = ground arith
holders-drop_one d e (h ∷ held) =
    ground (arith, holders-drop_one d e held, str_eq_iff h d, str_eq_iff d e, str_eq_iff h e)

acquire-Counts : (d : Bytes) (s : Holding) → Counts s → Counts (step (acquires d) s)
unfolding step try_acquire holders_of
acquire-Counts d s c = record {
  positive = ground (arith, c.positive);
  live = λ e. ground (
    arith,
    c.live e,
    str_eq_iff d e,
    get-insert d e 1 s.limiter.slots,
    get-insert d e (or_zero (get d s.limiter.slots) + 1) s.limiter.slots,
  );
  counted = λ e. ground (
    arith,
    c.counted e,
    c.counted d,
    str_eq_iff d e,
    get-insert d e 1 s.limiter.slots,
    get-insert d e (or_zero (get d s.limiter.slots) + 1) s.limiter.slots,
  );
  capped = λ e. ground (arith, c.capped e, c.counted d, c.positive, str_eq_iff d e);
}

release-Counts : (d : Bytes) (s : Holding) → Counts s → Counts (step (releases d) s)
unfolding step release
release-Counts d s c = record {
  positive = ground (arith, c.positive);
  live = λ e. ground (
    arith,
    c.live e,
    str_eq_iff d e,
    get-remove d e s.limiter.slots,
    get-insert d e (or_zero (get d s.limiter.slots) - 1) s.limiter.slots,
  );
  counted = λ e. ground (
    arith,
    c.counted e,
    c.counted d,
    str_eq_iff d e,
    get-remove d e s.limiter.slots,
    get-insert d e (or_zero (get d s.limiter.slots) - 1) s.limiter.slots,
    holders-drop_one d e s.held,
  );
  capped = λ e. ground (arith, c.capped e, str_eq_iff d e, holders-drop_one d e s.held);
}

run-Counts : (cs : List Call) (s : Holding) → Counts s → Counts (run cs s)
unfolding run
run-Counts [] s v = v
run-Counts (acquires d ∷ cs) s v = run-Counts cs (step (acquires d) s) (acquire-Counts d s v)
run-Counts (releases d ∷ cs) s v = run-Counts cs (step (releases d) s) (release-Counts d s v)

abbrev pub nobody : ℕ → Holding
nobody limit = record { limiter = new_domain_limiter limit; held = [] }

nobody-Counts : (limit : ℕ) → Counts (nobody limit)
unfolding new_domain_limiter get holders_of
nobody-Counts limit = record {
  positive = ground arith;
  live = λ d. ground arith;
  counted = λ d. refl;
  capped = λ d. omega arith;
}

-- After any sequence of acquisitions and of releases by the holders, each slot of the limiter counts
-- the attempts that hold it, at least one and at most the limit, and the names that nobody holds have
-- no slot.
pub run-nobody-Counts : (limit : ℕ) (cs : List Call) → Counts (run cs (nobody limit))
run-nobody-Counts limit cs = run-Counts cs (nobody limit) (nobody-Counts limit)

-- In a state where the slots count the holders, tryAcquire grants a slot exactly where `available`
-- says that there is one, and that is where the name is empty or has fewer holders than the limit.
pub try_acquire-available :
    (d : Bytes) (s : Holding)
    → Counts s
    → ((try_acquire d s.limiter).1 ≡ available d s.limiter)
      × (available d s.limiter
          ≡ (if is_empty d then true else ltb (holders_of d s.held) s.limiter.limit))
unfolding try_acquire available
try_acquire-available d s c = (ground arith, ground (arith, c.counted d, c.positive))
