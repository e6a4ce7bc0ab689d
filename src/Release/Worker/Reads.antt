-- ===== src/Release/Worker/Reads.antt =====
-- What get_release reads while the worker of apps/release_worker/service.py makes a change.
use ai_devops.Common.{String, Bool, Option, none, some, ◌≡◌, refl, sym, ◌∙◌, inl, inr, Option-cases}
use ai_devops.Common.Assoc.{Assoc, lookup}
use ai_devops.Release.Store.{Release, get_release}
use ai_devops.Release.Store.Laws.{release_key, Keyed, get_release-lookup, lookup-own}
use ai_devops.Release.Worker.{Worker, read_release, read_from}

-- The release of this work item, under its own id.
abbrev pub Belongs : String → Release → Type 0
Belongs wid r = (r.work_item_id ≡ wid) × (r.release_id ≡ release_key wid)

abbrev pub Named : Assoc Release → Type 0
Named rows = (k : String) (r : Release) → lookup k rows ≡ some r → r.release_id ≡ k

abbrev pub Stored : Option (Assoc Release) → Type 0
Stored none = Unit
Stored (some rows) = Keyed rows × Named rows

-- Every release stands under its own work item, in memory and in the table.
pub record IsValid (w : Worker) : Type 0 where
  pub cached : (k : String) (r : Release) → lookup k w.releases ≡ some r → Belongs k r
  pub stored : Stored w.store

module _ (later : String → String → Bool) where
  newest-Belongs :
      (k : String) (rows : Assoc Release) (r : Release)
      → Stored (some rows)
      → get_release later k rows ≡ some r
      → Belongs k r
  newest-Belongs k rows r (keyed, named) h =
      let at : lookup (release_key k) rows ≡ some r =
        sym (get_release-lookup later k rows keyed) ∙ h in
      (lookup-own k rows r keyed at, named (release_key k) r at)

  from-Belongs :
      (k : String) (store : Option (Assoc Release)) (cache : Assoc Release) (r : Release)
      → Stored store
      → ((q : Release) → lookup k cache ≡ some q → Belongs k q)
      → read_from later store cache k ≡ some r
      → Belongs k r
  unfolding read_from
  from-Belongs k none cache r v c = c r
  from-Belongs k (some rows) cache r v c = elim (Option-cases (get_release later k rows)) [
    | inl f ↦ rw (f, read_from) (c r)
    | inr (q, f) ↦ rw (f, read_from) λ h. newest-Belongs k rows r v (f ∙ h)
  ]

  -- What is read belongs to its work item.
  pub read-Belongs :
      (k : String) (w : Worker) (r : Release)
      → IsValid w
      → read_release later k w ≡ some r
      → Belongs k r
  unfolding read_release
  read-Belongs k w r v = from-Belongs k w.store w.releases r v.stored (v.cached k)

  pub read_from-hit :
      (k : String) (rows cache : Assoc Release) (r : Release)
      → get_release later k rows ≡ some r
      → read_from later (some rows) cache k ≡ some r
  unfolding read_from
  read_from-hit k rows cache r h = rw (h, read_from) refl

  pub read_from-miss :
      (k : String) (rows cache : Assoc Release)
      → get_release later k rows ≡ none
      → read_from later (some rows) cache k ≡ lookup k cache
  unfolding read_from
  read_from-miss k rows cache h = rw (h, read_from) refl

  pub read_from-same :
      (k : String) (rows cache rows' cache' : Assoc Release)
      → get_release later k rows' ≡ get_release later k rows
      → lookup k cache' ≡ lookup k cache
      → read_from later (some rows') cache' k ≡ read_from later (some rows) cache k
  read_from-same k rows cache rows' cache' g h = elim (Option-cases (get_release later k rows)) [
    | inl e ↦ read_from-miss k rows' cache' (g ∙ e) ∙ h ∙ sym (read_from-miss k rows cache e)
    | inr (q, e) ↦ read_from-hit k rows' cache' q (g ∙ e) ∙ sym (read_from-hit k rows cache q e)
  ]
