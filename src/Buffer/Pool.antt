-- ===== src/Buffer/Pool.antt =====
-- buffer/pool.go: `Pool[T]` over a `sync.Pool`. What `sync.Pool` keeps, and which item it hands
-- out, is not the repository's: it is the interface `SyncPool`.
use go_data_structures.Base.{
  ℕ, ◌^◌, ◌<◌, ◌≡◌, refl, sym, ◌∙◌, Bool, true, false, Option, none, some, arith, replicate,
  length-replicate, get_or-replicate, ◌==◌, if◌then◌else◌, is_negative, Bool-cases, inl, inr,
}
use native.Mathlib.Decide.{ℕ_discrete}
use mathlib.Core.Path.{subst}
use go_data_structures.Base.Go.{Outcome, returns, panics, negative_capacity, returns-injective}
use go_data_structures.Buffer.Defs.{Buffer, capacity, reset, reset_and_zero_all}
use go_data_structures.Buffer.Inv.{IsValid}
use go_data_structures.Buffer.Clear.{reset-IsValid, reset_and_zero_all_lem}

-- `sync.Pool`, with `New` as the argument `fresh` of `get`: an item that it hands out was put
-- before or is a new one, and whatever holds of all items put and of the new ones it keeps true.
pub record SyncPool (A : Type 0) : Type 1 where
  pub Store : Type 0
  pub nothing : Store
  pub put : A → Store → Store
  pub get : A → Store → A × Store
  pub All : (A → Type 0) → Store → Type 0
  pub All-nothing : (P : A → Type 0) → All P nothing
  pub All-put : (P : A → Type 0) (a : A) (s : Store) → P a → All P s → All P (put a s)
  pub All-get :
      (P : A → Type 0) (a : A) (s : Store) → P a → All P s → P (get a s).0 × All P (get a s).1

module _ {T : Type 0} (empty : T) (sync : SyncPool (Buffer T)) where
  pub record Pool : Type 0 where
    pub pool : sync.Store
    pub cap : ℕ
    pub zero_on_put : Bool

  -- `NewPool`
  unfoldable pub new_pool : ℕ → Bool → Outcome Pool
  new_pool n zero_on_put =
      if is_negative n
      then panics negative_capacity
      else returns (record { pool = sync.nothing; cap = n; zero_on_put = zero_on_put })

  -- `accepts`
  unfoldable pub accepts : Pool → Buffer T → Bool
  accepts p b = capacity b == p.cap

  -- What `New` returns: the capacity was checked by `NewPool`.
  abbrev pub new_item : ℕ → Buffer T
  new_item n = record { store = replicate n empty; start = 0; count = 0; high_water = 0 }

  -- `Get`
  unfoldable pub get : Pool → Buffer T × Pool
  get p = let (b, rest) = sync.get (new_item p.cap) p.pool in (b, record p { pool = rest })

  -- The buffer that `Put` resets, wiped or not.
  unfoldable pub released : Bool → Buffer T → Outcome (Unit {0}) × Buffer T
  released true b = reset_and_zero_all empty b
  released false b = (returns tt, reset b)

  unfoldable pub keep : Pool → Buffer T → Pool
  unfolding accepts
  keep p b = if accepts p b then record p { pool = sync.put b p.pool } else p

  -- A panic of the wipe would leave the pool as it is.
  unfoldable pub keep_reset : Pool → Outcome (Unit {0}) × Buffer T → Outcome (Unit {0}) × Pool
  unfolding keep
  keep_reset p (returns u, b) = (returns u, keep p b)
  keep_reset p (panics e, b) = (panics e, p)

  -- `Put`; `none` is a nil pointer.
  unfoldable pub put : Pool → Option (Buffer T) → Outcome (Unit {0}) × Pool
  unfolding keep_reset
  put p none = (returns tt, p)
  put p (some b) = keep_reset p (released p.zero_on_put b)

  -- A buffer as `Get` promises it: empty, of the pool's capacity, and with no value of the past if
  -- the pool wipes.
  pub record IsFresh (n : ℕ) (zero_on_put : Bool) (b : Buffer T) : Type 0 where
    pub valid : IsValid empty b
    pub none_live : b.count ≡ 0
    pub capacity_eq : capacity b ≡ n
    pub no_past : zero_on_put ≡ true → b.store ≡ replicate n empty

  pub record Inv (p : Pool) : Type 0 where
    pub small : p.cap < 2 ^ 63
    pub kept : sync.All (IsFresh p.cap p.zero_on_put) p.pool

  new_item-IsValid : (n : ℕ) → n < 2 ^ 63 → IsValid empty (new_item n)
  new_item-IsValid n h = record {
    small = omega (arith, length-replicate n empty);
    written = omega arith;
    marked = omega arith;
    based = λ _. refl;
    clean = λ i _. get_or-replicate n i empty;
  }

  new_item-IsFresh : (n : ℕ) (z : Bool) → n < 2 ^ 63 → IsFresh n z (new_item n)
  new_item-IsFresh n z h = record {
    valid = new_item-IsValid n h;
    none_live = refl;
    capacity_eq = length-replicate n empty;
    no_past = λ _. refl;
  }

  released_lem :
      (z : Bool) {b : Buffer T}
      → IsValid empty b
      → ((released z b).0 ≡ returns tt) × IsFresh (capacity b) z (released z b).1
  unfolding released
  released_lem true {b} v =
      rw (reset_and_zero_all_lem empty v) (refl, new_item-IsFresh (capacity b) true v.small)
  released_lem false {b} v = (
    refl,
    record {
      valid = reset-IsValid empty v;
      none_live = unfold reset in refl;
      capacity_eq = unfold reset in refl;
      no_past = λ e. cc;
    },
  )

  keep_reset_lem :
      (p : Pool) (r : Outcome (Unit {0}) × Buffer T)
      → r.0 ≡ returns tt
      → keep_reset p r ≡ (returns tt, keep p r.1)
  unfolding keep_reset
  keep_reset_lem p (returns u, b) e = refl
  keep_reset_lem p (panics x, b) e = cc

  -- A buffer of another capacity is not kept.
  keep-Inv : (p : Pool) {n : ℕ} {c : Buffer T} → IsFresh n p.zero_on_put c → Inv p → Inv (keep p c)
  unfolding keep accepts
  keep-Inv p {n} {c} f i = elim (ℕ_discrete (capacity c) p.cap) [
    | yes e ↦
        let test : (capacity c == p.cap) ≡ true = ground arith in
        let same : n ≡ p.cap = sym f.capacity_eq ∙ e in
        rw test (record {
          small = i.small;
          kept =
              sync.All-put (IsFresh p.cap p.zero_on_put) c p.pool
                (subst (λ k. IsFresh k p.zero_on_put c) same f) i.kept;
        })
    | no e ↦ let test : (capacity c == p.cap) ≡ false = ground arith in rw test i
  ]

  -- `Put` of any valid buffer, of the pool's capacity or not, does not panic and keeps the pool's
  -- promise.
  pub put-Inv :
      (p : Pool) {b : Buffer T}
      → IsValid empty b
      → Inv p
      → ((put p (some b)).0 ≡ returns tt) × Inv (put p (some b)).1
  unfolding put
  put-Inv p {b} v i =
      let (e, f) = released_lem p.zero_on_put v in
      rw (keep_reset_lem p (released p.zero_on_put b) e) (refl, keep-Inv p f i)

  pub get-Inv : (p : Pool) → Inv p → IsFresh p.cap p.zero_on_put (get p).0 × Inv (get p).1
  unfolding get
  get-Inv p i =
      let (f, rest) =
        sync.All-get (IsFresh p.cap p.zero_on_put) (new_item p.cap) p.pool
          (new_item-IsFresh p.cap p.zero_on_put i.small) i.kept in
      (f, record { small = i.small; kept = rest })

  -- The pools that a program reaches by `Get`, and by `Put` of valid buffers.
  pub data Reach (n : ℕ) (z : Bool) : Pool → Type 0 where
    start : {p : Pool} → new_pool n z ≡ returns p → Reach n z p
    got : {p : Pool} → Reach n z p → Reach n z (get p).1
    put_back :
        {p : Pool} {b : Buffer T} → Reach n z p → IsValid empty b → Reach n z (put p (some b)).1

  pub record Keeps (n : ℕ) (z : Bool) (p : Pool) : Type 0 where
    pub inv : Inv p
    pub cap_eq : p.cap ≡ n
    pub zero_eq : p.zero_on_put ≡ z

  new_pool-Keeps : {n : ℕ} {z : Bool} {p : Pool} → new_pool n z ≡ returns p → Keeps n z p
  unfolding new_pool
  new_pool-Keeps {n} {z} {p} e = elim (Bool-cases (is_negative n)) [
    | inl t ↦ cc (rw t at e)
    | inr t ↦ subst (Keeps n z) (returns-injective (rw t at e)) (record {
      inv = record { small = ground arith; kept = sync.All-nothing (IsFresh n z) };
      cap_eq = refl;
      zero_eq = refl;
    })
  ]

  put_config :
      (p : Pool) (o : Option (Buffer T))
      → ((put p o).1.cap ≡ p.cap) × ((put p o).1.zero_on_put ≡ p.zero_on_put)
  unfolding put keep_reset keep
  put_config p o = ground arith

  Reach-Keeps : {n : ℕ} {z : Bool} {p : Pool} → Reach n z p → Keeps n z p
  unfolding get
  Reach-Keeps (start e) = new_pool-Keeps e
  Reach-Keeps (got {p} r) =
      let k = Reach-Keeps r in
      record { inv = (get-Inv p k.inv).1; cap_eq = k.cap_eq; zero_eq = k.zero_eq }
  Reach-Keeps (put_back {p} {b} r v) =
      let k = Reach-Keeps r in
      let (c, z) = put_config p (some b) in
      record { inv = (put-Inv p v k.inv).1; cap_eq = c ∙ k.cap_eq; zero_eq = z ∙ k.zero_eq }

  -- However a pool was used before, with valid buffers of any capacity put into it, `Get` hands out
  -- an empty valid buffer of the pool's capacity; if the pool wipes, its array holds zeros only.
  pub get-IsFresh : {n : ℕ} {z : Bool} {p : Pool} → Reach n z p → IsFresh n z (get p).0
  get-IsFresh {n} {z} {p} r =
      let k = Reach-Keeps r in
      subst (λ m. IsFresh m z (get p).0) k.cap_eq
        (subst (λ w. IsFresh p.cap w (get p).0) k.zero_eq (get-Inv p k.inv).0)
