-- ===== src/Payments/Plans/Default.antt =====
-- Which plan is the default after handleAdminUpsertTopupPlan.
use lillian_backend.Common.{
  ◌≤◌, ◌+◌, ◌≡◌, refl, sym, Text, text_eq_iff, not, Bool, true, false, Option, List, [], ◌∷◌, ◌++◌,
  if◌then◌else◌, is_some, find_where, update_where, count_where, ok, arith, Bool-cases, inl, inr,
}
use lillian_backend.Schema.{CreditTopupPlan}
use lillian_backend.Common.{pure, subst}
use lillian_backend.Common.Tables.Laws.{count_where-update_same}
use lillian_backend.Sql.{World, steps, transaction}
use lillian_backend.Sql.Rules.{Keeps, IsPreorder, Keeps-commit, keeps_rules}
use lillian_backend.Http.{Server, internal, require_admin, require_database, read_json}
use lillian_backend.Payments.Plans.{
  has_plan_id, unset_default, only_default, rewrite_plan, upsert_plan, write_plan, Amounts,
  PlanRequest, handle_upsert_topup_plan,
}

abbrev pub is_default : CreditTopupPlan → Bool
is_default p = p.is_default

-- No two rows have one id, and one row at most is the default.
pub record IsValid (ps : List CreditTopupPlan) : Type 0 where
  pub unique : (id : Text) → count_where (has_plan_id id) ps ≤ 1
  pub one_default : count_where is_default ps ≤ 1

-- The table after the other defaults have been unset.
abbrev unset_but : Text → List CreditTopupPlan → List CreditTopupPlan
unset_but id ps = update_where (λ p. not (has_plan_id id p)) unset_default ps

abbrev upserted : CreditTopupPlan → List CreditTopupPlan → List CreditTopupPlan
upserted wanted ps =
    if is_some (find_where (has_plan_id wanted.id) ps)
    then update_where (has_plan_id wanted.id) (rewrite_plan wanted) ps
    else ps ++ wanted ∷ []

count_where-snoc :
    (q : CreditTopupPlan → Bool) (ps : List CreditTopupPlan) (p : CreditTopupPlan)
    → count_where q (ps ++ p ∷ []) ≡ count_where q ps + (if q p then 1 else 0)
unfolding count_where
count_where-snoc q [] p = omega arith
count_where-snoc q (x ∷ ps) p = omega (arith, count_where-snoc q ps p)

missing :
    (id : Text) (ps : List CreditTopupPlan)
    → is_some (find_where (has_plan_id id) ps) ≡ false
    → count_where (has_plan_id id) ps ≡ 0
unfolding count_where find_where
missing id [] h = refl
missing id (p ∷ ps) h = ground (arith, missing id ps)

-- The defaults are among the rows with the id.
defaults-unset :
    (id : Text) (ps : List CreditTopupPlan)
    → count_where is_default (unset_but id ps) ≤ count_where (has_plan_id id) (unset_but id ps)
unfolding count_where update_where
defaults-unset id [] = omega arith
defaults-unset id (p ∷ ps) = ground (arith, defaults-unset id ps)

defaults-rewritten :
    (wanted : CreditTopupPlan) (ps : List CreditTopupPlan)
    → count_where is_default
        (update_where (has_plan_id wanted.id) (rewrite_plan wanted) (unset_but wanted.id ps))
      ≤ count_where (has_plan_id wanted.id) (unset_but wanted.id ps)
unfolding count_where update_where
defaults-rewritten wanted [] = omega arith
defaults-rewritten wanted (p ∷ ps) = ground (arith, defaults-rewritten wanted ps)

defaults-kept :
    (wanted : CreditTopupPlan) (ps : List CreditTopupPlan)
    → wanted.is_default ≡ false
    → count_where is_default (update_where (has_plan_id wanted.id) (rewrite_plan wanted) ps)
      ≤ count_where is_default ps
unfolding count_where update_where
defaults-kept wanted [] h = omega arith
defaults-kept wanted (p ∷ ps) h = ground (arith, defaults-kept wanted ps h)

unset_unique :
    (id j : Text) (ps : List CreditTopupPlan)
    → count_where (has_plan_id j) (unset_but id ps) ≡ count_where (has_plan_id j) ps
unset_unique id j ps =
    count_where-update_same (has_plan_id j) (λ p. not (has_plan_id id p)) unset_default ps
      (λ x h. refl)

upserted_unique :
    (wanted : CreditTopupPlan) (j : Text) (ps : List CreditTopupPlan)
    → count_where (has_plan_id j) ps ≤ 1
    → count_where (has_plan_id j) (upserted wanted ps) ≤ 1
upserted_unique wanted j ps h =
    elim (Bool-cases (is_some (find_where (has_plan_id wanted.id) ps))) [
      | inl there ↦ rw there (
          grind (
            arith,
            count_where-update_same (has_plan_id j) (has_plan_id wanted.id) (rewrite_plan wanted) ps
                (λ x e. refl),
          ))
      | inr new ↦ rw new (
          grind (
            arith,
            count_where-snoc (has_plan_id j) ps wanted,
            missing wanted.id ps new,
            text_eq_iff wanted.id j,
          ))
    ]

unset-IsValid : (id : Text) (ps : List CreditTopupPlan) → IsValid ps → IsValid (unset_but id ps)
unset-IsValid id ps v = record {
  unique = λ j. omega (arith, unset_unique id j ps, v.unique j);
  one_default = omega (arith, defaults-unset id ps, unset_unique id id ps, v.unique id);
}

upserted-default :
    (wanted : CreditTopupPlan) (ps : List CreditTopupPlan)
    → IsValid ps
    → count_where is_default (upserted wanted (unset_but wanted.id ps)) ≤ 1
upserted-default wanted ps v =
    let now = unset_but wanted.id ps in
    elim (Bool-cases (is_some (find_where (has_plan_id wanted.id) now))) [
      | inl there ↦ rw there (
          omega (
            arith,
            defaults-rewritten wanted ps,
            unset_unique wanted.id wanted.id ps,
            v.unique wanted.id,
          ))
      | inr new ↦ rw new (
          grind (
            arith,
            count_where-snoc is_default now wanted,
            defaults-unset wanted.id ps,
            missing wanted.id now new,
          ))
    ]

upserted-plain :
    (wanted : CreditTopupPlan) (ps : List CreditTopupPlan)
    → wanted.is_default ≡ false
    → IsValid ps
    → count_where is_default (upserted wanted ps) ≤ 1
upserted-plain wanted ps plain v =
    elim (Bool-cases (is_some (find_where (has_plan_id wanted.id) ps))) [
      | inl there ↦ rw there (omega (arith, defaults-kept wanted ps plain, v.one_default))
      | inr new ↦ rw new (grind (arith, count_where-snoc is_default ps wanted, v.one_default))
    ]

-- What the transaction leaves.
abbrev written : CreditTopupPlan → List CreditTopupPlan → List CreditTopupPlan
written wanted ps = upserted wanted (if wanted.is_default then unset_but wanted.id ps else ps)

upserted-IsValid :
    (first : Bool) (wanted : CreditTopupPlan) (ps : List CreditTopupPlan)
    → wanted.is_default ≡ first
    → IsValid ps
    → IsValid (upserted wanted (if first then unset_but wanted.id ps else ps))
upserted-IsValid true wanted ps e v = record {
  unique = λ j.
      upserted_unique wanted j (unset_but wanted.id ps) ((unset-IsValid wanted.id ps v).unique j);
  one_default = upserted-default wanted ps v;
}
upserted-IsValid false wanted ps e v = record {
  unique = λ j. upserted_unique wanted j ps (v.unique j);
  one_default = upserted-plain wanted ps e v;
}

write_plan_lem :
    (wanted p : CreditTopupPlan) (w : World)
    → (write_plan wanted w).0 ≡ ok p
    → (write_plan wanted w).1.db.plans ≡ written wanted w.db.plans
unfolding write_plan steps only_default upsert_plan pure
write_plan_lem wanted p w h = elim (Bool-cases wanted.is_default) [
  | inl first ↦ grind arith
  | inr plain ↦ grind arith
]

preorder-IsValid : IsPreorder (λ d e. IsValid d.plans → IsValid e.plans)
preorder-IsValid = record { same = λ d v. v; chain = λ d e f p q v. q (p v) }

write_plan-Keeps :
    (wanted : CreditTopupPlan)
    → Keeps (λ d e. IsValid d.plans → IsValid e.plans) (transaction internal (write_plan wanted))
write_plan-Keeps wanted = Keeps-commit preorder-IsValid internal (write_plan wanted) (λ w p h v.
    subst IsValid (sym (write_plan_lem wanted p w h))
      (upserted-IsValid wanted.is_default wanted w.db.plans refl v))

-- Whatever the administrator asks for and whatever fails, the table of plans keeps to one default at
-- most: when no two rows have one id, and one row at most is the default, this is so after the
-- request too.
pub handle_upsert_topup_plan-IsValid :
    (m : Amounts) (server : Server) (authorization : Text) (request : Option PlanRequest)
    → Keeps
        (λ d e. IsValid d.plans → IsValid e.plans)
        (handle_upsert_topup_plan m server authorization request)
unfolding handle_upsert_topup_plan require_admin require_database read_json
handle_upsert_topup_plan-IsValid m server authorization request =
    search (keeps_rules, preorder-IsValid, write_plan-Keeps) depth 40
