-- ===== src/Release/Worker/Changes.antt =====
-- One change of a release by the worker of apps/release_worker/service.py: at every moment a release
-- is read as it was or as it is meant to become.
use ai_devops.Common.{
  String, Bool, Option, none, some, ◌≡◌, refl, sym, ap, subst, ◌∙◌, ◌⊎◌, inl, inr, str_eq, eq_iff,
  eq_refl, arith, if◌then◌else◌, Bool-cases, Option-cases,
}
use ai_devops.Common.Assoc.{Assoc, lookup, insert, remove, lookup-insert, lookup-remove}
use ai_devops.Release.Store.{Release, save_release, delete_release, get_release}
use ai_devops.Release.Store.Laws.{
  release_key, lookup-delete_release, save-Keyed, delete-Keyed, get-save, get-delete,
}
use ai_devops.Release.Worker.{read_from, save_in, delete_in}
use ai_devops.Release.Worker.Reads.{Belongs, Stored, read_from-hit, read_from-miss, read_from-same}

pub insert-cached :
    (wid : String) (r : Release) (m : Assoc Release)
    → Belongs wid r
    → ((k : String) (q : Release) → lookup k m ≡ some q → Belongs k q)
    → (k : String) (q : Release) → lookup k (insert wid r m) ≡ some q
    → Belongs k q
insert-cached wid r m b c k q h = elim (Bool-cases (str_eq wid k)) [
  | inl e ↦
      let same : r ≡ q = ground (arith, h, e, lookup-insert wid k r m) in
      subst (λ x. Belongs k x) same (subst (λ x. Belongs x r) ((eq_iff wid k).0 e) b)
  | inr e ↦ c k q (ground (arith, h, e, lookup-insert wid k r m))
]

pub remove-cached :
    (wid : String) (m : Assoc Release)
    → ((k : String) (q : Release) → lookup k m ≡ some q → Belongs k q)
    → (k : String) (q : Release) → lookup k (remove wid m) ≡ some q
    → Belongs k q
remove-cached wid m c k q h = c k q (ground (arith, h, lookup-remove wid k m))

save-Stored :
    (wid : String) (r : Release) (rows : Assoc Release)
    → Belongs wid r
    → Stored (some rows)
    → Stored (some (save_release r rows))
unfolding save_release
save-Stored wid r rows (own, named) (keyed, names) = (
  save-Keyed r rows (named ∙ ap release_key (sym own)) keyed,
  λ k q h. ground (arith, h, lookup-insert r.release_id k r rows, names k q, eq_iff r.release_id k),
)

delete-Stored :
    (wid : String) (rows : Assoc Release)
    → Stored (some rows)
    → Stored (some (delete_release wid rows))
delete-Stored wid rows (keyed, names) = (
  delete-Keyed wid rows keyed,
  λ k q h. names k q (ground (arith, h, lookup-delete_release wid k rows keyed)),
)

module _ {E : Type 0} where
  pub save_in-Stored :
      (fault : Option E) (wid : String) (r : Release) (store : Option (Assoc Release))
      → Belongs wid r
      → Stored store
      → Stored (save_in fault r store).0
  unfolding save_in
  save_in-Stored fault wid r none b v = tt
  save_in-Stored (some e) wid r (some rows) b v = v
  save_in-Stored none wid r (some rows) b v = save-Stored wid r rows b v

  pub delete_in-Stored :
      (fault : Option E) (wid : String) (store : Option (Assoc Release))
      → Stored store
      → Stored (delete_in fault wid store).0
  unfolding delete_in
  delete_in-Stored fault wid none v = tt
  delete_in-Stored (some e) wid (some rows) v = v
  delete_in-Stored none wid (some rows) v = delete-Stored wid rows v

got-save :
    (later : String → String → Bool) (wid : String) (r : Release) (k : String)
    (rows : Assoc Release)
    → Belongs wid r
    → Stored (some rows)
    → get_release later k (save_release r rows)
      ≡ (if str_eq wid k then some r else get_release later k rows)
got-save later wid r k rows b v =
    subst
      (λ z.
        get_release later k (save_release r rows)
        ≡ (if str_eq z k then some r else get_release later k rows))
      b.0 (get-save later r k rows (b.1 ∙ ap release_key (sym b.0)) v.0)

module _ (later : String → String → Bool) (E : Type 0) where
  -- After a save `r` or the old release is read for its work item; without a fault it is `r`.
  pub read-save :
      (fault : Option E) (wid : String) (r : Release) (store : Option (Assoc Release))
      (cache : Assoc Release) (k : String)
      → Belongs wid r
      → Stored store
      → (read_from later (save_in fault r store).0 (insert wid r cache) k
          ≡ read_from later store cache k)
        ⊎ ((wid ≡ k) × (read_from later (save_in fault r store).0 (insert wid r cache) k ≡ some r))
  unfolding save_in read_from
  read-save fault wid r none cache k b v = elim (Bool-cases (str_eq wid k)) [
    | inl f ↦ inr ((eq_iff wid k).0 f, ground (arith, f, lookup-insert wid k r cache))
    | inr f ↦ inl (ground (arith, f, lookup-insert wid k r cache))
  ]
  read-save (some e) wid r (some rows) cache k b v = elim (Bool-cases (str_eq wid k)) [
    | inr f ↦ inl (
        read_from-same later k rows cache rows (insert wid r cache) refl
          (ground (arith, f, lookup-insert wid k r cache)))
    | inl f ↦ elim (Option-cases (get_release later k rows)) [
      | inl g ↦ inr (
        (eq_iff wid k).0 f,
        read_from-miss later k rows (insert wid r cache) g
            ∙ ground (arith, f, lookup-insert wid k r cache),
      )
      | inr (q, g) ↦ inl (
          read_from-hit later k rows (insert wid r cache) q g
          ∙ sym (read_from-hit later k rows cache q g))
    ]
  ]
  read-save none wid r (some rows) cache k b v =
      let got = got-save later wid r k rows b v in
      elim (Bool-cases (str_eq wid k)) [
        | inr f ↦ inl (
            read_from-same later k rows cache (save_release r rows) (insert wid r cache)
              (ground (arith, f, got)) (ground (arith, f, lookup-insert wid k r cache)))
        | inl f ↦ inr (
          (eq_iff wid k).0 f,
          read_from-hit later k (save_release r rows) (insert wid r cache) r
              (ground (arith, f, got)),
        )
      ]

  pub read-save_ok :
      (wid : String) (r : Release) (store : Option (Assoc Release)) (cache : Assoc Release)
      → Belongs wid r
      → Stored store
      → read_from later (save_in {E = E} none r store).0 (insert wid r cache) wid ≡ some r
  unfolding save_in read_from
  read-save_ok wid r none cache b v = ground (arith, eq_refl wid, lookup-insert wid wid r cache)
  read-save_ok wid r (some rows) cache b v =
      read_from-hit later wid (save_release r rows) (insert wid r cache) r
        (ground (arith, eq_refl wid, got-save later wid r wid rows b v))

  pub read-delete :
      (fault : Option E) (wid : String) (store : Option (Assoc Release)) (cache : Assoc Release)
      (k : String)
      → Stored store
      → (read_from later (delete_in fault wid store).0 (remove wid cache) k
          ≡ read_from later store cache k)
        ⊎ ((wid ≡ k) × (read_from later (delete_in fault wid store).0 (remove wid cache) k ≡ none))
  unfolding delete_in read_from
  read-delete fault wid none cache k v = elim (Bool-cases (str_eq wid k)) [
    | inl f ↦ inr ((eq_iff wid k).0 f, ground (arith, f, lookup-remove wid k cache))
    | inr f ↦ inl (ground (arith, f, lookup-remove wid k cache))
  ]
  read-delete (some e) wid (some rows) cache k v = elim (Bool-cases (str_eq wid k)) [
    | inr f ↦ inl (
        read_from-same later k rows cache rows (remove wid cache) refl
          (ground (arith, f, lookup-remove wid k cache)))
    | inl f ↦ elim (Option-cases (get_release later k rows)) [
      | inl g ↦ inr (
        (eq_iff wid k).0 f,
        read_from-miss later k rows (remove wid cache) g
            ∙ ground (arith, f, lookup-remove wid k cache),
      )
      | inr (q, g) ↦ inl (
          read_from-hit later k rows (remove wid cache) q g
          ∙ sym (read_from-hit later k rows cache q g))
    ]
  ]
  read-delete none wid (some rows) cache k v =
      let got = get-delete later wid k rows v.0 in
      elim (Bool-cases (str_eq wid k)) [
        | inr f ↦ inl (
            read_from-same later k rows cache (delete_release wid rows) (remove wid cache)
              (ground (arith, f, got)) (ground (arith, f, lookup-remove wid k cache)))
        | inl f ↦ inr (
          (eq_iff wid k).0 f,
          read_from-miss later k (delete_release wid rows) (remove wid cache)
                (ground (arith, f, got))
              ∙ ground (arith, f, lookup-remove wid k cache),
        )
      ]

  pub read-delete_ok :
      (wid : String) (store : Option (Assoc Release)) (cache : Assoc Release)
      → Stored store
      → read_from later (delete_in {E = E} none wid store).0 (remove wid cache) wid ≡ none
  unfolding delete_in read_from
  read-delete_ok wid none cache v = ground (arith, eq_refl wid, lookup-remove wid wid cache)
  read-delete_ok wid (some rows) cache v =
      read_from-miss later wid (delete_release wid rows) (remove wid cache)
        (ground (arith, eq_refl wid, get-delete later wid wid rows v.0))
      ∙ ground (arith, eq_refl wid, lookup-remove wid wid cache)
