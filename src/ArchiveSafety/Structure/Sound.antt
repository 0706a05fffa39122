-- ===== src/ArchiveSafety/Structure/Sound.antt =====
-- What an archive that passes `_validate_structure` satisfies.
use termroom.Prelude.{
  ℕ, suc, ◌+◌, ◌≤◌, Bool, true, ◌&&◌, List, [], ◌∷◌, length, ◌≡◌, refl, sym, ap, subst, arith, ◌∙◌,
}
use termroom.Prelude.Result.{ok}
use termroom.ArchiveSafety.Entry.{ArchiveLimits, ZipInfo, ZipEntry, entry_from_info}
use termroom.ArchiveSafety.Entry.Facts.{IsFit, entry_from_info-IsFit}
use termroom.ArchiveSafety.Conflict.Separate.{
  all_separate, pairwise_separate, passes, passes-separate, separate_symm,
}
use termroom.ArchiveSafety.Structure.{validate_infos, validate_structure}

abbrev pub AllFit : ArchiveLimits → List ZipEntry → Type 0
AllFit limits [] = Unit {0}
AllFit limits (e ∷ es) = IsFit limits e × AllFit limits es

unfoldable pub total_size : List ZipEntry → ℕ
total_size [] = 0
total_size (e ∷ es) = e.size + total_size es

-- entries that can be written as one tree below a directory, within the limits
pub record IsSound (limits : ArchiveLimits) (entries : List ZipEntry) : Type 0 where
  pub fit : AllFit limits entries
  pub separate : pairwise_separate entries ≡ true
  pub total_capped : total_size entries ≤ limits.max_total_bytes
  pub count_capped : length entries ≤ limits.max_entries

abbrev pub Pairs : Type 0
Pairs = List (ZipInfo × ZipEntry)

unfoldable pub infos_of : Pairs → List ZipInfo
infos_of [] = []
infos_of (p ∷ ps) = p.0 ∷ infos_of ps

unfoldable pub entries_of : Pairs → List ZipEntry
entries_of [] = []
entries_of (p ∷ ps) = p.1 ∷ entries_of ps

-- each entry is the one made of its own record
abbrev pub Made : ArchiveLimits → Pairs → Type 0
Made limits [] = Unit {0}
Made limits (p ∷ ps) = (entry_from_info p.0 limits ≡ ok p.1) × Made limits ps

-- one round of the loop that goes through
pub record Round (limits : ArchiveLimits) (by_path : List ZipEntry) (total : ℕ) (info : ZipInfo)
    (infos : List ZipInfo) (pairs : Pairs) (final : ℕ) : Type 0 where
  pub entry : ZipEntry
  pub rest : Pairs
  pub made : entry_from_info info limits ≡ ok entry
  pub passed : passes entry by_path ≡ true
  pub within : total + entry.size ≤ limits.max_total_bytes
  pub later : validate_infos limits (entry ∷ by_path) (total + entry.size) infos ≡ ok (rest, final)
  pub returned : pairs ≡ (info, entry) ∷ rest

round :
    (limits : ArchiveLimits) (by_path : List ZipEntry) (total : ℕ) (info : ZipInfo)
    (infos : List ZipInfo) (pairs : Pairs) (final : ℕ)
    → validate_infos limits by_path total (info ∷ infos) ≡ ok (pairs, final)
    → Round limits by_path total info infos pairs final
unfolding validate_infos
round limits by_path total info infos pairs final h = ground arith

-- every one of `es` is separate from every one of `others`
unfoldable pub each_separate : List ZipEntry → List ZipEntry → Bool
each_separate [] others = true
each_separate (e ∷ es) others = all_separate e others && each_separate es others

each_separate-cons :
    (es : List ZipEntry) (e : ZipEntry) (others : List ZipEntry)
    → each_separate es (e ∷ others) ≡ true
    → (all_separate e es ≡ true) × (each_separate es others ≡ true)
unfolding each_separate all_separate
each_separate-cons [] e others h = (refl, refl)
each_separate-cons (x ∷ xs) e others h =
    ground (arith, each_separate-cons xs e others, separate_symm x e)

record Outcome (limits : ArchiveLimits) (by_path : List ZipEntry) (total : ℕ) (infos : List ZipInfo)
    (pairs : Pairs) (final : ℕ) : Type 0 where
  same_infos : infos_of pairs ≡ infos
  made : Made limits pairs
  fit : AllFit limits (entries_of pairs)
  apart : pairwise_separate (entries_of pairs) ≡ true
  apart_before : each_separate (entries_of pairs) by_path ≡ true
  summed : final ≡ total + total_size (entries_of pairs)
  capped : final ≤ limits.max_total_bytes

one_more :
    (limits : ArchiveLimits) (by_path : List ZipEntry) (total : ℕ) (info : ZipInfo)
    (infos : List ZipInfo) (pairs : Pairs) (final : ℕ)
    (r : Round limits by_path total info infos pairs final)
    → all_separate r.entry by_path ≡ true
    → Outcome limits (r.entry ∷ by_path) (total + r.entry.size) infos r.rest final
    → Outcome limits by_path total (info ∷ infos) ((info, r.entry) ∷ r.rest) final
unfolding infos_of entries_of total_size pairwise_separate each_separate
one_more limits by_path total info infos pairs final r w o =
    let apart = each_separate-cons (entries_of r.rest) r.entry by_path o.apart_before in
    record {
      same_infos = ap (λ is. info ∷ is) o.same_infos;
      made = (r.made, o.made);
      fit = ((entry_from_info-IsFit info limits r.entry r.made).0, o.fit);
      apart = ground (arith, apart, o.apart);
      apart_before = ground (arith, apart);
      summed = omega (arith, o.summed);
      capped = o.capped;
    }

outcome :
    (limits : ArchiveLimits) (infos : List ZipInfo) (by_path : List ZipEntry) (total : ℕ)
    (pairs : Pairs) (final : ℕ)
    → pairwise_separate by_path ≡ true
    → total ≤ limits.max_total_bytes
    → validate_infos limits by_path total infos ≡ ok (pairs, final)
    → Outcome limits by_path total infos pairs final
unfolding pairwise_separate
outcome limits [] by_path total pairs final w c h =
    unfold validate_infos infos_of entries_of total_size each_separate in ground arith
outcome limits (info ∷ infos) by_path total pairs final w c h =
    let r = round limits by_path total info infos pairs final h in
    let apart = passes-separate r.entry by_path w r.passed in
    let o =
      outcome limits infos (r.entry ∷ by_path) (total + r.entry.size) r.rest final
        (ground (arith, apart)) r.within r.later in
    subst (λ ps. Outcome limits by_path total (info ∷ infos) ps final) (sym r.returned)
      (one_more limits by_path total info infos pairs final r apart o)

length-entries_of : (pairs : Pairs) → length (infos_of pairs) ≡ length (entries_of pairs)
unfolding infos_of entries_of
length-entries_of [] = refl
length-entries_of (p ∷ ps) = ap suc (length-entries_of ps)

-- A central directory that passes has its records in their order, each with the entry made of it;
-- the entries fit the limits one by one and together, no two of them have one path, none lies below
-- a file, and the total is the sum of their sizes.
pub validate_structure-IsSound :
    (infos : List ZipInfo) (limits : ArchiveLimits) (pairs : Pairs) (final : ℕ)
    → validate_structure infos limits ≡ ok (pairs, final)
    → IsSound limits (entries_of pairs)
      × (infos_of pairs ≡ infos)
      × Made limits pairs
      × (final ≡ total_size (entries_of pairs))
unfolding validate_structure
validate_structure-IsSound infos limits pairs final h =
    let o =
      outcome limits infos [] 0 pairs final (unfold pairwise_separate in refl) (omega arith)
        (ground arith) in
    (
      record {
        fit = o.fit;
        separate = o.apart;
        total_capped = omega (arith, o.summed, o.capped);
        count_capped =
            subst (λ n. n ≤ limits.max_entries)
              (ap length (sym o.same_infos) ∙ length-entries_of pairs) (ground arith);
      },
      o.same_infos,
      o.made,
      o.summed ∙ omega arith,
    )
