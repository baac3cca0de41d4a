-- ===== src/Sql/Success.antt =====
-- What a computation that succeeds went through, step by step.
use lillian_backend.Common.{
  ◌≡◌, refl, ap, sym, ◌∙◌, Bool, true, false, Option, none, some, arith, ok, Exec, pure, guard,
  or_raise, continue, ◌>>=◌, Result-cases, Option-cases, inl, inr,
}
use lillian_backend.Schema.{Db}
use lillian_backend.Sql.{World, SqlError, query, query_row, insert, map_error}
use lillian_backend.Sql.Rules.{Keeps, IsPreorder}

-- What a computation that succeeds went through.
pub bind_ok :
    {E S A B : Type 0} (m : Exec E S A) (f : A → Exec E S B) (s : S) (b : B)
    → ((m >>= f) s).0 ≡ ok b
    → (a : A) × ((m s).0 ≡ ok a) × ((f a (m s).1).0 ≡ ok b)
unfolding ◌>>=◌
bind_ok m f s b h = elim (Result-cases (m s).0) [
  | inl (a, e) ↦ (a, e, ap (λ r. (continue r f (m s).1).0) (sym e) ∙ h)
  | inr (x, e) ↦ absurd (ground arith)
]

pub pure_ok : {E S A : Type 0} (a b : A) (s : S) → (pure {E = E} a s).0 ≡ ok b → a ≡ b
unfolding pure
pure_ok a b s h = ground arith

pub guard_ok :
    {E S : Type 0} (b : Bool) (e : E) (s : S) (u : Unit)
    → (guard b e s).0 ≡ ok u
    → (b ≡ true) × ((guard b e s).1 ≡ s)
unfolding guard
guard_ok true e s u h = (refl, refl)
guard_ok false e s u h = absurd (ground arith)

pub or_raise_ok :
    {E S A : Type 0} (o : Option A) (e : E) (s : S) (a : A) → (or_raise o e s).0 ≡ ok a → o ≡ some a
unfolding or_raise
or_raise_ok none e s a h = absurd (ground arith)
or_raise_ok (some x) e s a h = ground arith

pub same_database : IsPreorder (λ d e. d ≡ e)
same_database = record { same = λ d. refl; chain = λ d e f p q. p ∙ q }

-- After a step that changes nothing the rest runs on the same database.
pub read_ok :
    {E A B : Type 0} (m : Exec E World A) (f : A → Exec E World B) (w : World) (b : B)
    → Keeps (λ d e. d ≡ e) m
    → ((m >>= f) w).0 ≡ ok b
    → (a : A) × (w' : World) × ((m w).0 ≡ ok a)
      × (w'.db ≡ w.db)
      × ((m >>= f) w ≡ f a w')
      × ((f a w').0 ≡ ok b)
unfolding ◌>>=◌
read_ok m f w b k h = elim (Result-cases (m w).0) [
  | inl (a, e) ↦
      let step = ap (λ r. continue r f (m w).1) e in
      (a, (m w).1, e, sym (k.at w), step, ap (λ x. x.0) (sym step) ∙ h)
  | inr (x, e) ↦ absurd (ground arith)
]

module _ {E : Type 0} (wrap : SqlError → E) where
  pub query_row_ok :
      {A : Type 0} (q : Db → Option A) (w : World) (a : A)
      → (query_row wrap q w).0 ≡ ok a
      → q w.db ≡ some a
  unfolding query_row
  query_row_ok q w a h = elim (Option-cases (q w.db)) [
    | inl missing ↦ absurd (ground arith)
    | inr (x, found) ↦ ground arith
  ]

  pub query_ok :
      {A : Type 0} (q : Db → A) (w : World) (a : A) → (query wrap q w).0 ≡ ok a → q w.db ≡ a
  unfolding query
  query_ok q w a h = ground arith

  pub insert_ok :
      (conflict : Db → Bool) (change : Db → Db) (w : World) (u : Unit)
      → (insert wrap conflict change w).0 ≡ ok u
      → (conflict w.db ≡ false) × ((insert wrap conflict change w).1.db ≡ change w.db)
  unfolding insert
  insert_ok conflict change w u h = ground arith

  -- An INSERT that ends a handler.
  pub insert_then :
      {A : Type 0} (conflict : Db → Bool) (change : Db → Db) (a b : A) (w : World)
      → ((insert wrap conflict change >>= λ _. pure a) w).0 ≡ ok b
      → (a ≡ b)
        × (conflict w.db ≡ false)
        × (((insert wrap conflict change >>= λ _. pure a) w).1.db ≡ change w.db)
  unfolding ◌>>=◌ insert pure
  insert_then conflict change a b w h = ground arith

pub map_error_ok :
    {E F A : Type 0} (g : E → F) (m : Exec E World A) (w : World) (a : A)
    → (map_error g m w).0 ≡ ok a
    → (m w).0 ≡ ok a
unfolding map_error
map_error_ok g m w a h = ground arith
