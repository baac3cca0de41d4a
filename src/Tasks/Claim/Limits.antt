-- ===== src/Tasks/Claim/Limits.antt =====
-- What a claim that succeeds has checked, and what it changes (tasks.go: the claims).
use lillian_backend.Common.{
  ℕ, ◌+◌, pos, ◌≤ℤ◌, ltb_ℤ, ◌≡◌, refl, ap, subst, sym, Text, true, Option, some, List, [], ◌∷◌,
  arith, select_where, update_where, count_where, Option-cases, inl, inr, ok,
}
use mathlib.Core.Option.{some-injective}
use lillian_backend.Common.{All, implies}
use lillian_backend.Common.Sorting.{le, order_by, by_key-IsOrder, compare_ℕ-IsOrder}
use lillian_backend.Common.Sorting.First.{
  map_All, implied, first, first-order_by, All-select_where, select_where-All,
}
use lillian_backend.Common.Sorting.Laws.{order_by-All}
use lillian_backend.Schema.{Db, TaskRow, TaskStatus}
use lillian_backend.Sql.{fault, later_faults, head_or, rest}
use lillian_backend.Sql.{World, steps, spend, reading}
use lillian_backend.Sql.Rules.{transaction_ok}
use lillian_backend.Settings.{RuntimeSettings}
use lillian_backend.Tasks.Claim.{
  claim, is_running, is_queued_task, run, set_running, global_slot_available, mark_task_running,
  claim_body, claim_failed, claim_next_queued_task, next_claimable, is_claimable, by_creation,
}

-- What holds when `t` has been claimed of the row `row`, from `d` to `e`.
pub record Claimed (pick : Db → Option TaskRow) (settings : RuntimeSettings) (d e : Db)
    (t : TaskRow) : Type 0 where
  pub row : TaskRow
  pub now : ℕ
  pub picked : pick d ≡ some row
  pub slot : ltb_ℤ (pos (count_where is_running d.tasks)) settings.image_global_concurrency ≡ true
  pub one : count_where (is_queued_task row.id) d.tasks ≡ 1
  pub claimed : t ≡ run now row
  pub written : e ≡ set_running row.id now d

mark_task_running_lem :
    (row t : TaskRow) (w : World)
    → (mark_task_running row w).0 ≡ ok t
    → (count_where (is_queued_task row.id) w.db.tasks ≡ 1)
      × (t ≡ run (reading w) row)
      × ((mark_task_running row w).1.db ≡ set_running row.id (reading w) w.db)
unfolding mark_task_running steps
mark_task_running_lem row t w h = ground arith

claim_body_lem :
    (pick : Db → Option TaskRow) (settings : RuntimeSettings) (w : World) (t : TaskRow)
    → (claim_body pick settings w).0 ≡ ok t
    → Claimed pick settings w.db (claim_body pick settings w).1.db t
unfolding claim_body global_slot_available steps reading
claim_body_lem pick settings w t h = elim (Option-cases (pick w.db)) [
  | inl nothing ↦ absurd (ground arith)
  | inr (row, found) ↦ record {
    row = row;
    now = reading w;
    picked = found;
    slot = ground arith;
    one = ground arith;
    claimed = ground arith;
    written = ground arith;
  }
]

-- A claim that succeeds: the transaction keeps what its statements did.
claim-Claimed :
    (pick : Db → Option TaskRow) (settings : RuntimeSettings) (w : World) (t : TaskRow)
    → (claim pick settings w).0 ≡ ok t
    → Claimed pick settings w.db (claim pick settings w).1.db t
unfolding claim
claim-Claimed pick settings w t h =
    let (kept, same) = transaction_ok claim_failed (claim_body pick settings) w t h in
    subst (λ e. Claimed pick settings w.db e t) (sym same)
      (claim_body_lem pick settings (spend w) t kept)

-- One more task runs after a claim.
running-set_running :
    (id : Text) (now : ℕ) (ts : List TaskRow)
    → count_where is_running (update_where (is_queued_task id) (run now) ts)
      ≡ count_where is_running ts + count_where (is_queued_task id) ts
unfolding count_where update_where
running-set_running id now [] = refl
running-set_running id now (t ∷ ts) = ground (arith, running-set_running id now ts)

-- A claim never takes the number of running tasks above the global limit: after a claim that
-- succeeds there is one running task more, and the limit holds.
pub claim-global_limit :
    (pick : Db → Option TaskRow) (settings : RuntimeSettings) (w : World) (t : TaskRow)
    → (claim pick settings w).0 ≡ ok t
    → (count_where is_running (claim pick settings w).1.db.tasks
        ≡ count_where is_running w.db.tasks + 1)
      × (pos (count_where is_running (claim pick settings w).1.db.tasks)
          ≤ℤ settings.image_global_concurrency)
unfolding set_running
claim-global_limit pick settings w t h =
    let c = claim-Claimed pick settings w t h in
    let more = running-set_running c.row.id c.now w.db.tasks in
    let count = ap (λ d. count_where is_running d.tasks) c.written in
    (grind (arith, more, count, c.one), grind (arith, more, count, c.one, c.slot))

first_All :
    (P : TaskRow → Type 0) (xs : List TaskRow) (a : TaskRow) → All P xs → first xs ≡ some a → P a
first_All P [] a h e = absurd cc
first_All P (x ∷ xs) a h e = subst P (some-injective x a e) h.0

-- The task that the workers claim was queued, with a free slot at its profile, and no other such
-- task was created before it.
pub claim_next-oldest :
    (settings : RuntimeSettings) (w : World) (t : TaskRow)
    → (claim_next_queued_task settings w).0 ≡ ok t
    → (row : TaskRow) × (t.id ≡ row.id)
      × (t.status ≡ TaskStatus.running)
      × (is_claimable settings w.db row ≡ true)
      × All (λ r. implies (is_claimable settings w.db r) (le by_creation row r) ≡ true) w.db.tasks
unfolding claim_next_queued_task next_claimable
claim_next-oldest settings w t h =
    let c = claim-Claimed (next_claimable settings) settings w t h in
    let fit = select_where (is_claimable settings w.db) w.db.tasks in
    (
      c.row,
      ap (λ x. x.id) c.claimed,
      ap (λ x. x.status) c.claimed,
      first_All _ (order_by by_creation fit) c.row
          (order_by-All by_creation _ fit (select_where-All _ w.db.tasks)) c.picked,
      map_All w.db.tasks (λ r k. implied (is_claimable settings w.db r) _ k)
          (All-select_where _ (is_claimable settings w.db) w.db.tasks (
            first-order_by (by_key-IsOrder (λ r. r.created_at) compare_ℕ-IsOrder) fit c.row
              c.picked)),
    )

-- With the database answering, a slot free, and a task picked that is queued once, the claim
-- succeeds and returns that task as running.
pub claim_succeeds :
    (pick : Db → Option TaskRow) (settings : RuntimeSettings) (w : World) (row : TaskRow)
    → w.faults ≡ []
    → ltb_ℤ (pos (count_where is_running w.db.tasks)) settings.image_global_concurrency ≡ true
    → pick w.db ≡ some row
    → count_where (is_queued_task row.id) w.db.tasks ≡ 1
    → (claim pick settings w).0 ≡ ok (run (reading w) row)
unfolding claim claim_body global_slot_available mark_task_running steps fault later_faults head_or
    rest reading
claim_succeeds pick settings w row quiet slot picked one = ground arith
