-- ===== src/Workspaces/Lifecycle/Steps.antt =====
-- A change of `Workspaces.Lifecycle` keeps the rows sound, and leads to a later state.
use transit_scholar.Base.{
  ◌+◌, ◌≤◌, String, ◌≡◌, ◌≢◌, refl, sym, subst, ◌∙◌, false, none, some, inl, inr, str_eq, eq_iff,
  arith, Bool-cases,
}
use transit_scholar.Records.{Workspace, Tables, Database}
use transit_scholar.Workspaces.Lifecycle.{
  rank, Follows, Follows-refl, IsLater, IsLater-refl, IsSound, Change, unchanged, inserted, updated,
  emptied,
}

module _ (t : Tables) (db : Database t) where
  inserted-kept :
      (row old : Workspace) (rows : t.workspaces.Rows) (k : String)
      → t.workspaces.add row db.workspaces ≡ some rows
      → t.workspaces.get db.workspaces k ≡ some old
      → t.workspaces.get rows k ≡ some old
  inserted-kept row old rows k added h = elim (Bool-cases (str_eq row.workspace_id k)) [
    | inl same ↦
        let e : row.workspace_id ≡ k = (eq_iff row.workspace_id k).0 same in
        let there : t.workspaces.get db.workspaces row.workspace_id ≡ some old = rw e h in
        cc (added, t.workspaces.add_taken row old db.workspaces there)
    | inr other ↦ ground (arith, h, other, t.workspaces.get-add row db.workspaces rows k added)
  ]

  differs :
      (row : Workspace) (k : String) → str_eq row.workspace_id k ≡ false → k ≢ row.workspace_id
  differs row k other e = cc (other, (eq_iff row.workspace_id k).1 (sym e))

  -- the rows of the membership table outside one Workspace
  abbrev OthersKept : t.memberships.Rows → String → Type 0
  OthersKept members id =
      (k p : String)
      → k ≢ id
      → t.memberships.get members (k, p) ≡ t.memberships.get db.memberships (k, p)

  updated-IsLater :
      (old row : Workspace) (members : t.memberships.Rows)
      → t.workspaces.get db.workspaces row.workspace_id ≡ some old
      → Follows old row
      → row.revision ≡ old.revision + 1
      → OthersKept members row.workspace_id
      → IsLater t db
          (record db { workspaces = t.workspaces.assign row db.workspaces; memberships = members })
  updated-IsLater old row members found follows next others k was h =
      let put = t.workspaces.get-assign row old db.workspaces k found in
      elim (Bool-cases (str_eq row.workspace_id k)) [
        | inl same ↦
            let e : row.workspace_id ≡ k = (eq_iff row.workspace_id k).0 same in
            let at : t.workspaces.get db.workspaces k ≡ some old = rw (← e) found in
            let one : was ≡ old = ground (arith, at, h) in
            let later : Follows was row = rw one follows in
            let newer : was.revision + 1 ≡ row.revision = rw one (sym next) in
            (row, ground (arith, put, same), later, λ r p. ground (arith, newer, r))
        | inr other ↦ (
          was,
          ground (arith, put, other, h),
          Follows-refl was,
          λ e p. others k p (differs row k other),
        )
      ]

  emptied-kept :
      (w : Workspace) (members : t.memberships.Rows)
      → t.workspaces.get db.workspaces w.workspace_id ≡ some w
      → 2 ≤ rank w.status
      → OthersKept members w.workspace_id
      → ((p : String) → t.memberships.get members (w.workspace_id, p) ≡ none)
      → IsSound t db
      → (k p : String) → t.memberships.get members (k, p) ≡ t.memberships.get db.memberships (k, p)
  emptied-kept w members found revoked others none_left sound k p =
      elim (Bool-cases (str_eq w.workspace_id k)) [
        | inl same ↦
            let e : w.workspace_id ≡ k = (eq_iff w.workspace_id k).0 same in
            rw (← e) (none_left p ∙ sym (sound.revoked w.workspace_id w found revoked p))
        | inr other ↦ others k p (differs w k other)
      ]

  pub Change-IsLater : (new : Database t) → Change t db new → IsSound t db → IsLater t db new
  Change-IsLater new unchanged sound = IsLater-refl t db
  Change-IsLater new (inserted row rows added active) sound =
      λ k old h. (old, inserted-kept row old rows k added h, Follows-refl old, λ e p. refl)
  Change-IsLater new (updated old row members found follows next others none_left) sound =
      updated-IsLater old row members found follows next others
  Change-IsLater new (emptied w members found revoked others none_left) sound = λ k was h. (
    was,
    h,
    Follows-refl was,
    λ e p. emptied-kept w members found revoked others none_left sound k p,
  )

  inserted-IsSound :
      (row : Workspace) (rows : t.workspaces.Rows)
      → t.workspaces.add row db.workspaces ≡ some rows
      → row.status ≡ "active"
      → IsSound t db
      → IsSound t (record db { workspaces = rows })
  unfolding rank
  inserted-IsSound row rows added active sound =
      let put = t.workspaces.get-add row db.workspaces rows in
      record {
        revoked = λ k w h two. elim (Bool-cases (str_eq row.workspace_id k)) [
          | inl same ↦
              let e : row ≡ w = ground (arith, put k added, same, h) in
              let new_one : w.status ≡ "active" = rw (← e) active in
              let fresh : 2 ≤ rank "active" = subst (λ s. 2 ≤ rank s) new_one two in
              λ p. ground (arith, fresh)
          | inr other ↦ sound.revoked k w (ground (arith, put k added, other, h)) two
        ];
        owned = λ k p m h. ground (arith, put k added, sound.owned k p m h);
      }

  updated-IsSound :
      (old row : Workspace) (members : t.memberships.Rows)
      → t.workspaces.get db.workspaces row.workspace_id ≡ some old
      → OthersKept members row.workspace_id
      → (2 ≤ rank row.status
          → (p : String) → t.memberships.get members (row.workspace_id, p) ≡ none)
      → IsSound t db
      → IsSound t
          (record db { workspaces = t.workspaces.assign row db.workspaces; memberships = members })
  updated-IsSound old row members found others none_left sound =
      let put = λ (k : String). t.workspaces.get-assign row old db.workspaces k found in
      record {
        revoked = λ k w h two. elim (Bool-cases (str_eq row.workspace_id k)) [
          | inl same ↦
              let e : row.workspace_id ≡ k = (eq_iff row.workspace_id k).0 same in
              let one : w ≡ row = ground (arith, put k, same, h) in
              let past : 2 ≤ rank row.status = rw (← one) two in rw (← e) (none_left past)
          | inr other ↦ λ p.
              others k p (differs row k other)
              ∙ sound.revoked k w (ground (arith, put k, other, h)) two p
        ];
        owned = λ k p m h. elim (Bool-cases (str_eq row.workspace_id k)) [
          | inl same ↦ ground (arith, put k, same)
          | inr other ↦
              let was = sound.owned k p m (sym (others k p (differs row k other)) ∙ h) in
              ground (arith, put k, other, was)
        ];
      }

  pub Change-IsSound : (new : Database t) → Change t db new → IsSound t db → IsSound t new
  Change-IsSound new unchanged sound = sound
  Change-IsSound new (inserted row rows added active) sound =
      inserted-IsSound row rows added active sound
  Change-IsSound new (updated old row members found follows next others none_left) sound =
      updated-IsSound old row members found others none_left sound
  Change-IsSound new (emptied w members found revoked others none_left) sound =
      let same = emptied-kept w members found revoked others none_left sound in
      record {
        revoked = λ k v h two p. same k p ∙ sound.revoked k v h two p;
        owned = λ k p m h. sound.owned k p m (sym (same k p) ∙ h);
      }
