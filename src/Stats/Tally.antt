-- ===== src/Stats/Tally.antt =====
-- What the tally of grouped rows holds.
use nadbooks_backend.Prelude.{
  ℕ, ◌+◌, String, true, false, ◌==◌, ◌≡◌, refl, sym, ◌∙◌, ap, none, some, arith, inl, inr, eq_iff,
  Bool-cases, Option-cases, find_first, find_many, update_first, List, [], ◌∷◌, length,
  if◌then◌else◌, find_first-update_self, find_first-fits, Option, find_first-update_other,
}
use nadbooks_backend.Prelude.Distinct.{Distinct, Distinct-keep}
use nadbooks_backend.Stats.{
  Counted, is_of, one_more, count_in, group_by, put_count, tally_from, tally,
}

abbrev count_or : ℕ → Option Counted → ℕ
count_or n none = n
count_or n (some row) = row.count

count_in-Distinct :
    (status : String) (rows : List Counted)
    → Distinct (λ r. r.status) rows
    → Distinct (λ r. r.status) (count_in status rows)
unfolding Distinct
count_in-Distinct status rows d = elim (Option-cases (find_first (is_of status) rows)) [
  | inl new ↦ rw new (new, d)
  | inr (row, there) ↦
      rw there (Distinct-keep (λ r. r.status) (is_of status) one_more rows (λ r. refl) d)
]

group_by-Distinct : (statuses : List String) → Distinct (λ r. r.status) (group_by statuses)
unfolding group_by Distinct
group_by-Distinct [] = tt
group_by-Distinct (s ∷ statuses) =
    count_in-Distinct s (group_by statuses) (group_by-Distinct statuses)

-- Where no row has the status, the tally holds what it held.
tally-absent :
    (out : String → ℕ) (rows : List Counted) (status : String)
    → find_first (is_of status) rows ≡ none
    → tally_from out rows status ≡ out status
unfolding tally_from find_first
tally-absent out [] status h = refl
tally-absent out (row ∷ rows) status h = elim (Bool-cases (row.status == status)) [
  | inl here ↦ ground (arith, here, h)
  | inr away ↦ tally-absent (put_count row out) rows status (ground (arith, away, h)) ∙ rw away refl
]

tally-found :
    (out : String → ℕ) (rows : List Counted) (status : String)
    → Distinct (λ r. r.status) rows
    → tally_from out rows status ≡ count_or (out status) (find_first (is_of status) rows)
unfolding tally_from find_first Distinct
tally-found out [] status d = refl
tally-found out (row ∷ rows) status (new, d) = elim (Bool-cases (row.status == status)) [
  | inl here ↦
      let same : row.status ≡ status = (eq_iff _ _).0 here in
      tally-absent (put_count row out) rows status
        (ap (λ s. find_first (is_of s) rows) (sym same) ∙ new)
      ∙ rw here refl
  | inr away ↦ tally-found (put_count row out) rows status d ∙ rw away refl
]

count_in-find :
    (s t : String) (rows : List Counted)
    → count_or 0 (find_first (is_of t) (count_in s rows))
      ≡ (if s == t then 1 else 0) + count_or 0 (find_first (is_of t) rows)
unfolding find_first
count_in-find s t rows = elim (Option-cases (find_first (is_of s) rows)) [
  | inl new ↦ elim (Bool-cases (s == t)) [
    | inl same ↦
        let absent : find_first (is_of t) rows ≡ none =
          ap (λ x. find_first (is_of x) rows) (sym ((eq_iff s t).0 same)) ∙ new in
        ground (arith, new, same, absent)
    | inr other ↦ ground (arith, new, other)
  ]
  | inr (row, there) ↦
      let fits : (row.status == s) ≡ true = find_first-fits (is_of s) rows row there in
      let path : row.status ≡ s = (eq_iff _ _).0 fits in
      elim (Bool-cases (s == t)) [
        | inl same ↦
            let to : s ≡ t = (eq_iff s t).0 same in
            let found : find_first (is_of t) rows ≡ some row =
              ap (λ x. find_first (is_of x) rows) (sym to) ∙ there in
            let after : find_first (is_of t) (update_first (is_of s) one_more rows)
                ≡ some (one_more row) =
              ap (λ x. find_first (is_of x) (update_first (is_of s) one_more rows)) (sym to)
              ∙ find_first-update_self (is_of s) one_more rows row there fits in
            ground (arith, there, same, found, after)
        | inr other ↦
            let unfit : (row.status == t) ≡ false = ap (λ x. x == t) path ∙ other in
            let after =
              find_first-update_other (is_of s) (is_of t) one_more rows row there unfit unfit in
            ground (arith, there, other, after)
      ]
]

group_by-count :
    (statuses : List String) (status : String)
    → count_or 0 (find_first (is_of status) (group_by statuses))
      ≡ length (find_many (λ s. s == status) statuses)
unfolding group_by find_first find_many
group_by-count [] status = refl
group_by-count (s ∷ statuses) status =
    let step = count_in-find s status (group_by statuses) in
    let rest = group_by-count statuses status in
    elim (Bool-cases (s == status)) [
      | inl same ↦ step ∙ ground (arith, same, rest)
      | inr other ↦ step ∙ ground (arith, other, rest)
    ]

-- Folding the grouped rows of the database gives each value the number of rows that have it.
pub tally-group_by :
    (statuses : List String) (status : String)
    → tally (group_by statuses) status ≡ length (find_many (λ s. s == status) statuses)
unfolding tally
tally-group_by statuses status =
    tally-found (λ s. 0) (group_by statuses) status (group_by-Distinct statuses)
    ∙ group_by-count statuses status
