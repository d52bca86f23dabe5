-- ===== src/Tasks/Visible/Lists.antt =====
-- `list_tasks` and `GET /tasks/:id` show a user's own tasks, and to an admin the active ones.
use elidune_server.Prelude.{
  ℕ, ◌≡◌, arith, Bool, true, false, ◌==◌, Bool-cases, Option-cases, ◌⊎◌, inl, inr, List, [], ◌∷◌,
  ◌++◌, map,
}
use elidune_server.Prelude.Int.{ltb_ℤ}
use elidune_server.Prelude.Table.{All, All-append, IsRow, select_first, select_first_holds}
use elidune_server.Prelude.Rows.{All-select_first, All-select_where, All-map, select_where-All}
use elidune_server.Tasks.{
  BackgroundTask, Manager, has_id, indexed_tasks, load_user_tasks_from_redis, insert_newest,
  sort_newest, visible_to, shown, others, list_tasks,
}
use elidune_server.Tasks.Events.{Event, run}
use elidune_server.Tasks.Visible.{OwnedTask, OwnedEntry, Owned, Gives, run-Owned}

module _ {Json : Type 0} (P : BackgroundTask Json → Type 0) where
  insert_newest-All :
      (t : BackgroundTask Json) (ts : List (BackgroundTask Json))
      → P t
      → All P ts
      → All P (insert_newest t ts)
  insert_newest-All t [] h hs = (h, tt)
  insert_newest-All t (u ∷ us) h (k, ks) = elim (Bool-cases (ltb_ℤ t.created_at u.created_at)) [
    | inl yes' ↦ rw yes' (k, insert_newest-All t us h ks)
    | inr no' ↦ rw no' (h, (k, ks))
  ]

  sort_newest-All : (ts : List (BackgroundTask Json)) → All P ts → All P (sort_newest ts)
  sort_newest-All [] h = tt
  sort_newest-All (t ∷ ts) (h, hs) = insert_newest-All t (sort_newest ts) h (sort_newest-All ts hs)

module _ {Json : Type 0} (user_id : ℕ) where
  -- A listed task is the user's own, or an active one that an admin sees.
  abbrev pub MayList : Bool → Manager Json → BackgroundTask Json → Type 0
  MayList is_admin m t =
      (t.user_id ≡ user_id) ⊎ ((is_admin ≡ true) × IsRow t (map (λ job. job.task) m.active))

eq_of_test : {a b : ℕ} → a == b ≡ true → a ≡ b
eq_of_test h = ground arith

module _ {Json : Type 0} (owner : ℕ → ℕ) (user_id : ℕ) where
  abbrev Mine : BackgroundTask Json → Type 0
  Mine t = t.user_id ≡ user_id

  indexed-Mine :
      (redis : List (BackgroundTask Json)) (index : List (ℕ × ℕ))
      → All (OwnedTask owner) redis
      → All (OwnedEntry owner) index
      → All Mine (indexed_tasks user_id redis index)
  indexed-Mine redis [] h k = tt
  indexed-Mine redis ((user, id) ∷ index) h (k, ks) = elim (Bool-cases (user == user_id)) [
    | inl same ↦ elim (Option-cases (select_first (has_id id) redis)) [
      | inl missing ↦ rw (same, missing) (indexed-Mine redis index h ks)
      | inr (task, found) ↦
          rw (same, found)
            (
              cc (
                All-select_first (OwnedTask owner) (has_id id) redis task h found,
                k,
                eq_of_test (select_first_holds (has_id id) redis found),
                eq_of_test same,
              ),
              indexed-Mine redis index h ks,
            )
    ]
    | inr other ↦ rw other (indexed-Mine redis index h ks)
  ]

  redis-Mine :
      (up : Bool) (m : Manager Json)
      → Owned owner m
      → All Mine (load_user_tasks_from_redis up user_id m)
  unfolding load_user_tasks_from_redis
  redis-Mine false m h = tt
  redis-Mine true m (a, w, r, x) = indexed-Mine m.redis m.user_index r x

  listed-MayList :
      (up is_admin : Bool) (m : Manager Json)
      → Owned owner m
      → All (MayList user_id is_admin m) (list_tasks up user_id is_admin m)
  unfolding list_tasks
  listed-MayList up is_admin m h =
      let listed = shown user_id is_admin m in
      let mine = load_user_tasks_from_redis up user_id m in
      sort_newest-All (MayList user_id is_admin m) (listed ++ others listed mine) (
        All-append (MayList user_id is_admin m) listed (others listed mine)
          (select_where-All (MayList user_id is_admin m) (visible_to user_id is_admin)
            (map (λ job. job.task) m.active) (λ t r v. may_list t r v))
          (All-select_where (MayList user_id is_admin m) _ mine
            (All-map Mine (MayList user_id is_admin m) mine (λ t e. inl e) (redis-Mine up m h))))
    where
      may_list :
          (t : BackgroundTask Json)
          → IsRow t (map (λ job. job.task) m.active)
          → visible_to user_id is_admin t ≡ true
          → MayList user_id is_admin m t
      may_list t r v = elim (Bool-cases is_admin) [
        | inl admin ↦ inr (admin, r)
        | inr other ↦ inl (ground arith)
      ]

-- If every id was given to one user, and the manager's tasks and index agree with that, then after
-- any interleaving of events a list of tasks shows a user only the user's own tasks, and to an admin
-- also tasks of others that are in the map of active tasks; whether Redis answers or not.
pub list_tasks-MayList :
    {Json : Type 0} (owner : ℕ → ℕ) (es : List (Event Json)) (m : Manager Json) (up : Bool)
    (user_id : ℕ) (is_admin : Bool)
    → All (Gives owner) es
    → Owned owner m
    → All (MayList user_id is_admin (run es m)) (list_tasks up user_id is_admin (run es m))
list_tasks-MayList owner es m up user_id is_admin g h =
    listed-MayList owner user_id up is_admin (run es m) (run-Owned owner es m g h)
