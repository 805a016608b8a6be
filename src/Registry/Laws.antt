-- ===== src/Registry/Laws.antt =====
-- The ownership rules of the registry.
use businessos.Prelude.{
  String, List, false, not, Option, none, some, ◌==◌, string_eq, option_eq, if◌then◌else◌, ◌≡◌, sym,
  ap, ◌∙◌, arith, Option-cases, inl, inr,
}
use businessos.Prelude.Dict.{
  get, filter_option, get-put, put-get-some, put-IsDistinct, IsDistinct, get-filter_items,
  filter_items-IsDistinct,
}
use businessos.Errors.{ok, err, conflict_error, not_found_error}
use businessos.Activation.{
  ContributionGate, ContributionGeneration, generation_eq, is_active, enter, begin_close,
}
use businessos.Activation.System.{System, Reach, start, Closer, NeverPublished}
use businessos.Activation.Fence.{closed_until_publish}
use businessos.Registry.{
  OwnedValue, OwnedRegistry, register, is_active_entry, resolve, remove_owner_generation,
  admit_entry,
}

module _ {T : Type 0} where
  -- Each name has one entry, and an entry stands under its name.
  pub record IsOwned (r : OwnedRegistry T) : Type 0 where
    pub single : IsDistinct r.values
    pub named :
        (name : String) (entry : OwnedValue T) → get r.values name ≡ some entry → entry.name ≡ name

  register-IsOwned :
      (name owner : String) (value : T) (generation : Option ContributionGeneration)
      (r : OwnedRegistry T)
      → IsOwned r
      → IsOwned (register name owner value generation r).1
  unfolding register
  register-IsOwned name owner value generation r h = elim (Option-cases (get r.values name)) [
    | inr (current, is) ↦ rw (is, register) h
    | inl absent ↦
        rw (absent, register)
          (let entry : OwnedValue T = record {
            name = name;
            owner = owner;
            value = value;
            generation = generation;
          } in
            record {
              single = put-IsDistinct r.values name entry h.single;
              named = λ j x p. elim (put-get-some r.values name j entry p) [
                | inl (at, is) ↦ sym (ap (λ (x : OwnedValue T). x.name) is) ∙ at
                | inr (ne, old) ↦ h.named j x old
              ];
            })
  ]

  remove-IsOwned :
      (g : ContributionGeneration) (r : OwnedRegistry T)
      → IsOwned r
      → IsOwned (remove_owner_generation g r)
  unfolding remove_owner_generation
  remove-IsOwned g r h = record {
    single = filter_items-IsDistinct _ r.values h.single;
    named = λ j x p. h.named j x (
        ground (
          arith,
          get-filter_items (λ _ (entry : OwnedValue T). not (entry.generation == some g)) r.values j
              h.single,
          p,
        ));
  }

  -- `register` of a name that is taken, by an inactive entry too, raises ConflictError and changes
  -- nothing; of a free name it adds that entry and leaves every other name as it was.
  register_lem :
      (name owner : String) (value : T) (generation : Option ContributionGeneration)
      (r : OwnedRegistry T)
      → ((current : OwnedValue T)
          → get r.values name ≡ some current
          → register name owner value generation r ≡ (err conflict_error, r))
        × (get r.values name ≡ none
            → ((register name owner value generation r).0 ≡ ok tt)
              × ((j : String)
                  → get (register name owner value generation r).1.values j ≡ (
                      if name == j
                      then some (record {
                        name = name;
                        owner = owner;
                        value = value;
                        generation = generation;
                      })
                      else get r.values j)))
  unfolding register
  register_lem name owner value generation r = (
    (λ current is. rw (is, register)),
    (λ free. (rw (free, register), λ j. rw (free, register) (get-put r.values name j _))),
  )

  -- `remove_owner_generation` takes out exactly the entries of that generation.
  pub remove_lem :
      (g : ContributionGeneration) (r : OwnedRegistry T) (name : String)
      → IsOwned r
      → get (remove_owner_generation g r).values name
        ≡ filter_option (λ entry. not (entry.generation == some g)) (get r.values name)
  unfolding remove_owner_generation
  remove_lem g r name h = get-filter_items _ r.values name h.single

pub not-active_of_refused :
    (g : ContributionGeneration) (s : ContributionGate)
    → enter (some g) s ≡ (err not_found_error, s)
    → is_active (some g) s ≡ false
unfolding enter is_active
not-active_of_refused g s h = ground (arith, h)

-- Once `close_and_drain` has begun on the generation of an entry, the entry can be neither resolved
-- nor admitted, whatever other tasks do, as long as none of them publishes that generation again; the
-- refusals are NotFoundError and change nothing.
pub closed_entry :
    {T : Type 0} (w : System) {v : System} (r : OwnedRegistry T) (name : String)
    (entry : OwnedValue T) (g : ContributionGeneration) (cs : List Closer)
    → get r.values name ≡ some entry
    → entry.generation ≡ some g
    → Reach start w
    → (begin_close g w.gate).0 ≡ ok tt
    → (path : Reach (record w { gate = (begin_close g w.gate).1; closing = cs }) v)
    → NeverPublished g path
    → (resolve (some v.gate) name r ≡ err not_found_error)
      × (admit_entry (some v.gate) entry ≡ (err not_found_error, some v.gate))
unfolding resolve is_active_entry admit_entry
closed_entry w {v} r name entry g cs is of before done path never =
    let refused = closed_until_publish {w = w} g cs before done path never in
    let idle = not-active_of_refused g v.gate refused in
    (rw (is, resolve) (rw (of, idle)), rw of (rw refused))
