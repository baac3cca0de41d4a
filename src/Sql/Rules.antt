-- ===== src/Sql/Rules.antt =====
-- How a computation changes the database, step by step: `Keeps R m` says that `m` takes each
-- database to one that R relates it to, whether it returns or fails; `Returns P m` says what holds
-- of the values that it returns.
use lillian_backend.Common.{
  ℕ, ◌≡◌, refl, ap, Bool, true, false, Option, none, some, if◌then◌else◌, arith, Result, ok, err,
  Exec, pure, raise, guard, or_raise, continue, ◌>>=◌, Result-cases, Option-cases, inl, inr,
}
use lillian_backend.Common.{[], subst, sym, ◌∙◌}
use lillian_backend.Sql.{later_faults, head_or, rest}
use lillian_backend.Schema.{Db}
use lillian_backend.Sql.{
  World, SqlError, fault, spend, exec, query, query_row, transaction, attempt, map_error, time_now,
  random_id, reading, later_clock,
}

pub record IsPreorder (R : Db → Db → Type 0) : Type 0 where
  pub same : (d : Db) → R d d
  pub chain : (d e f : Db) → R d e → R e f → R d f

pub record Keeps (R : Db → Db → Type 0) {E A : Type 0} (m : Exec E World A) : Type 0 where
  pub at : (w : World) → R w.db (m w).1.db

pub record Returns {E A : Type 0} (P : A → Type 0) (m : Exec E World A) : Type 0 where
  pub at : (w : World) (a : A) → (m w).0 ≡ ok a → P a

module _ {R : Db → Db → Type 0} (o : IsPreorder R) {E : Type 0} where
  pub Keeps-pure : {A : Type 0} (a : A) → Keeps R (pure {E = E} {S = World} a)
  unfolding pure
  Keeps-pure a = record { at = λ w. o.same w.db }

  pub Keeps-raise : {A : Type 0} (e : E) → Keeps R (raise {E = E} {S = World} {A = A} e)
  unfolding raise
  Keeps-raise e = record { at = λ w. o.same w.db }

  pub Keeps-guard : (b : Bool) (e : E) → Keeps R (guard {E = E} {S = World} b e)
  unfolding guard
  Keeps-guard true e = record { at = λ w. o.same w.db }
  Keeps-guard false e = record { at = λ w. o.same w.db }

  pub Keeps-or_raise :
      {A : Type 0} (a : Option A) (e : E) → Keeps R (or_raise {E = E} {S = World} a e)
  unfolding or_raise
  Keeps-or_raise none e = record { at = λ w. o.same w.db }
  Keeps-or_raise (some a) e = record { at = λ w. o.same w.db }

  pub Keeps-time_now : Keeps R (time_now {E = E})
  unfolding time_now
  Keeps-time_now = record { at = λ w. o.same w.db }

  pub Keeps-random_id : (e : E) → Keeps R (random_id {E = E} e)
  unfolding random_id
  Keeps-random_id e = record { at = λ w. ground (arith, o.same w.db) }

  module _ (wrap : SqlError → E) {A : Type 0} where
    pub Keeps-query : (f : Db → A) → Keeps R (query {E = E} wrap f)
    unfolding query
    Keeps-query f = record { at = λ w. ground (arith, o.same w.db) }

    pub Keeps-query_row : (f : Db → Option A) → Keeps R (query_row {E = E} wrap f)
    unfolding query_row
    Keeps-query_row f = record { at = λ w. ground (arith, o.same w.db) }

    pub Keeps-exec :
        (f : Db → A) (change : Db → Db)
        → ((d : Db) → R d (change d))
        → Keeps R (exec {E = E} wrap f change)
    unfolding exec
    Keeps-exec f change h = record { at = λ w. ground (arith, o.same w.db, h w.db) }

    pub Keeps-transaction : (m : Exec E World A) → Keeps R m → Keeps R (transaction {E = E} wrap m)
    unfolding transaction
    Keeps-transaction m h = record { at = λ w. ground (arith, o.same w.db, h.at (spend w)) }

    -- A transaction that fails leaves the database as it was: only a success has to be looked at.
    pub Keeps-commit :
        (m : Exec E World A)
        → ((w : World) (a : A) → (m w).0 ≡ ok a → R w.db (m w).1.db)
        → Keeps R (transaction {E = E} wrap m)
    unfolding transaction
    Keeps-commit m h = record { at = λ w. commit w (m (spend w)).0 (h (spend w)) }
      where
        commit :
            (w : World) (r : Result E A)
            → ((a : A) → (m (spend w)).0 ≡ ok a → R w.db (m (spend w)).1.db)
            → R w.db (transaction {E = E} wrap m w).1.db
        commit w r k = elim (Result-cases (m (spend w)).0) [
          | inl (a, e) ↦ ground (arith, k a e, o.same w.db)
          | inr (x, e) ↦ ground (arith, o.same w.db)
        ]

  pub Keeps-if :
      {A : Type 0} (b : Bool) (m n : Exec E World A)
      → Keeps R m
      → Keeps R n
      → Keeps R (if b then m else n)
  Keeps-if true m n km kn = km
  Keeps-if false m n km kn = kn

  module _ {A B : Type 0} where
    pub Keeps-bind_where :
        (P : A → Type 0) (m : Exec E World A) (f : A → Exec E World B)
        → Returns P m
        → Keeps R m
        → ((a : A) → P a → Keeps R (f a))
        → Keeps R (m >>= f)
    unfolding ◌>>=◌
    Keeps-bind_where P m f r km kf = record { at = λ w. step w (m w).0 (m w).1 (r.at w) (km.at w) }
      where
        step :
            (w : World) (r : Result E A) (w' : World)
            → ((a : A) → r ≡ ok a → P a)
            → R w.db w'.db
            → R w.db (continue r f w').1.db
        step w (ok a) w' p k = o.chain w.db w'.db _ k ((kf a (p a refl)).at w')
        step w (err x) w' p k = k

    pub Keeps-bind :
        (m : Exec E World A) (f : A → Exec E World B)
        → Keeps R m
        → ((a : A) → Keeps R (f a))
        → Keeps R (m >>= f)
    Keeps-bind m f km kf =
        Keeps-bind_where (λ _. Unit) m f (record { at = λ w a e. tt }) km (λ a _. kf a)

  module _ {F A : Type 0} where
    pub Keeps-map_error : (g : F → E) (m : Exec F World A) → Keeps R m → Keeps R (map_error g m)
    unfolding map_error
    Keeps-map_error g m h = record { at = λ w. ground (arith, h.at w) }

    pub Keeps-attempt : (m : Exec F World A) → Keeps R m → Keeps R (attempt {E = F} {F = E} m)
    unfolding attempt
    Keeps-attempt m h = record { at = λ w. h.at w }

pub Returns-map_error :
    {E F A : Type 0} (P : A → Type 0) (g : F → E) (m : Exec F World A)
    → Returns P m
    → Returns P (map_error g m)
unfolding map_error
Returns-map_error P g m h = record { at = λ w a e. ground (arith, h.at w a) }

pub ruleset keeps_rules = (
  Keeps-pure, Keeps-raise, Keeps-guard, Keeps-or_raise, Keeps-time_now, Keeps-random_id,
  Keeps-query, Keeps-query_row, Keeps-exec, Keeps-transaction, Keeps-if, Keeps-bind,
  Keeps-map_error, Keeps-attempt,
)

pub query_row_found :
    {E A : Type 0} (wrap : SqlError → E) (q : Db → Option A) (w : World) (a : A)
    → fault w ≡ none
    → q w.db ≡ some a
    → query_row wrap q w ≡ (ok a, spend w)
unfolding query_row
query_row_found wrap q w a fine found = ground arith

-- A row is read, then the clock, and the rest of the computation runs.
pub read_then :
    {E A B : Type 0} (wrap : SqlError → E) (q : Db → Option A) (f : A → ℕ → Exec E World B)
    (w : World) (b : B)
    → ((query_row wrap q >>= λ a. time_now >>= λ now. f a now) w).0 ≡ ok b
    → (a : A) × (q w.db ≡ some a)
      × ((query_row wrap q >>= λ a. time_now >>= λ now. f a now) w
          ≡ f a (reading w) (record (spend w) { clock = later_clock w }))
unfolding ◌>>=◌ query_row time_now reading later_clock
read_then wrap q f w b h = elim (Option-cases (q w.db)) [
  | inl missing ↦ absurd (ground arith)
  | inr (a, found) ↦ elim (Option-cases (fault w)) [
    | inl fine ↦ (
      a,
      found,
      ap (λ r. continue r.0 (λ x. time_now >>= λ now. f x now) r.1)
          (query_row_found wrap q w a fine found),
    )
    | inr (m, broken) ↦ absurd (ground arith)
  ]
]

-- A transaction that succeeds keeps what its statements did.
pub transaction_ok :
    {E A : Type 0} (wrap : SqlError → E) (m : Exec E World A) (w : World) (a : A)
    → (transaction wrap m w).0 ≡ ok a
    → ((m (spend w)).0 ≡ ok a) × ((transaction wrap m w).1.db ≡ (m (spend w)).1.db)
unfolding transaction
transaction_ok wrap m w a h = elim (Result-cases (m (spend w)).0) [
  | inl (x, e) ↦ ground arith
  | inr (x, e) ↦ absurd (ground arith)
]

-- A database that answers.
pub no_fault : (w : World) → w.faults ≡ [] → fault w ≡ none
unfolding fault head_or
no_fault w quiet = ground arith

pub none_later : (w : World) → w.faults ≡ [] → (spend w).faults ≡ []
unfolding later_faults rest
none_later w quiet = ground arith

module _ {E A : Type 0} {P : A → Type 0} where
  pub Returns-pure : (a : A) → P a → Returns P (pure {E = E} {S = World} a)
  unfolding pure
  Returns-pure a p = record {
    at = λ w b e. subst P (ap (λ r. elim r [ ok x ↦ x | err x ↦ a ]) e) p;
  }

  pub Returns-bind :
      {B : Type 0} (m : Exec E World B) (f : B → Exec E World A)
      → ((b : B) → Returns P (f b))
      → Returns P (m >>= f)
  unfolding ◌>>=◌
  Returns-bind m f h = record {
    at = λ w a e. elim (Result-cases (m w).0) [
      | inl (b, r) ↦ (h b).at (m w).1 a (ap (λ x. (continue x f (m w).1).0) (sym r) ∙ e)
      | inr (x, r) ↦ absurd (ground arith)
    ];
  }
