-- ===== src/Upload/Sweep/Laws.antt =====
-- A sweep removes the expired workspaces, in their order, up to the limit.
use bi_ble_atlas.Base.{
  ℕ, zero, suc, ◌+◌, ◌-◌, ◌≤◌, ◌<◌, String, ◌≡◌, refl, sym, ap, ap₂, ◌∙◌, List, [], ◌∷◌, some, map,
  filter, leb, length, Bool-cases, inl, inr, arith,
}
use bi_ble_atlas.Database.Chunked.{take, length-take}
use bi_ble_atlas.Upload.Sweep.{
  Entry, is_swept, removed_first, sweep_entries, sweep_expired_task_workspaces,
}

-- The expired workspaces.
abbrev pub expired : (now ttl_hours : ℕ) → List Entry → List String
expired now ttl_hours entries = map (λ e. e.path) (filter (is_swept now ttl_hours) entries)

-- The first of them, and the count that they lead to.
abbrev first_expired : (now ttl_hours limit : ℕ) → List Entry → (deleted : ℕ) → List String × ℕ
first_expired now ttl_hours limit entries deleted =
    let removed = take (limit - deleted) (expired now ttl_hours entries) in
    (removed, deleted + length removed)

take-[] : (n : ℕ) → take {A = String} n [] ≡ []
unfolding take
take-[] zero = refl
take-[] (suc n) = refl

take_nothing : (n : ℕ) (ps : List String) → n ≡ 0 → take n ps ≡ []
unfolding take
take_nothing zero ps h = refl
take_nothing (suc n) ps h = absurd (omega (arith, h))

abbrev outcome : List String → ℕ → List String × ℕ
outcome removed deleted = (removed, deleted)

-- Nothing is removed.
counted :
    (d : ℕ) (removed : List String)
    → removed ≡ []
    → outcome removed (d + length removed) ≡ outcome [] d
counted d removed left = ap₂ outcome left same
  where
    same : d + length removed ≡ d
    same = rw (left) (omega arith)

take-suc : (n k : ℕ) (p : String) (ps : List String) → n ≡ suc k → take n (p ∷ ps) ≡ p ∷ take k ps
unfolding take
take-suc n k p ps h = rw (h) refl

-- One more is removed.
one_more :
    (limit d : ℕ) (p : String) (ps : List String)
    → d < limit
    → removed_first p (outcome (take (limit - suc d) ps) (suc d + length (take (limit - suc d) ps)))
      ≡ outcome (take (limit - d) (p ∷ ps)) (d + length (take (limit - d) (p ∷ ps)))
one_more limit d p ps h =
    let step = take-suc (limit - d) (limit - suc d) p ps (omega arith) in
    ap₂ outcome (sym step)
      (shift (take (limit - suc d) ps) ∙ ap (λ (r : List String). d + length r) (sym step))
  where
    shift : (r : List String) → suc d + length r ≡ d + length (p ∷ r)
    shift r = omega arith

sweep_entries-first_expired :
    (now ttl_hours limit : ℕ) (entries : List Entry) (d : ℕ)
    → sweep_entries now ttl_hours limit entries d ≡ first_expired now ttl_hours limit entries d
unfolding sweep_entries filter
sweep_entries-first_expired now ttl_hours limit [] d =
    sym (counted d (take (limit - d) []) (take-[] (limit - d)))
sweep_entries-first_expired now ttl_hours limit (entry ∷ entries) d =
    elim (Bool-cases (leb limit d)) [
      | inl full ↦ rw (full) (
          sym (
            counted d (take (limit - d) (expired now ttl_hours (entry ∷ entries))) (
              take_nothing (limit - d) (expired now ttl_hours (entry ∷ entries))
                (ground (arith, full)))))
      | inr room ↦ elim (Bool-cases (is_swept now ttl_hours entry)) [
        | inl swept ↦
            rw (room, swept)
              (ap (removed_first entry.path)
                  (sweep_entries-first_expired now ttl_hours limit entries (suc d))
                ∙ one_more limit d entry.path (expired now ttl_hours entries)
                    (ground (arith, room)))
        | inr kept ↦ rw (room, kept) (sweep_entries-first_expired now ttl_hours limit entries d)
      ]
    ]

no_less : (n : ℕ) → n - 0 ≡ n
no_less n = omega arith

-- A sweep calls the removal of the expired workspaces, those that are directories and were last changed more
-- than the given hours ago, in their order and up to the limit, and returns how many these are, which is at
-- most the limit.
pub sweep_expired_task_workspaces-expired :
    (now ttl_hours limit : ℕ) (entries : List Entry)
    → ((sweep_expired_task_workspaces now ttl_hours limit (some entries)).0
        ≡ take limit (expired now ttl_hours entries))
      × ((sweep_expired_task_workspaces now ttl_hours limit (some entries)).1
          ≡ length (take limit (expired now ttl_hours entries)))
      × ((sweep_expired_task_workspaces now ttl_hours limit (some entries)).1 ≤ limit)
unfolding sweep_expired_task_workspaces
sweep_expired_task_workspaces-expired now ttl_hours limit entries =
    let run = sweep_entries-first_expired now ttl_hours limit entries 0 in
    let same = ap (λ n. take n (expired now ttl_hours entries)) (no_less limit) in
    let count : (sweep_entries now ttl_hours limit entries 0).1
        ≡ length (take limit (expired now ttl_hours entries)) =
      ap (λ r. r.1) run
      ∙ plain (take (limit - 0) (expired now ttl_hours entries))
      ∙ ap length same in
    (
      ap (λ r. r.0) run ∙ same,
      count,
      omega (arith, count, length-take limit (expired now ttl_hours entries)),
    )
  where
    plain : (r : List String) → 0 + length r ≡ length r
    plain r = omega arith
