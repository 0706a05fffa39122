-- ===== src/ArchiveSafety/Extra/Fields.antt =====
-- The loop over the extra fields reads back what is written field by field.
use termroom.Prelude.{
  ℕ, zero, suc, ◌/◌, ◌%◌, ◌≤◌, ◌<◌, List, [], ◌∷◌, ◌++◌, length, ◌≡◌, refl, arith,
}
use termroom.Prelude.Result.{Result, ok, ◌>>◌}
use termroom.Prelude.Lists.{drop, length-append, length-drop, take-append, drop-append}
use termroom.ArchiveSafety.Path.{ArchiveCode}
use termroom.ArchiveSafety.Extra.{little, check_field, check_fields, reject_link_extra_fields}

pub record Field : Type 0 where
  pub header_id : ℕ
  pub payload : List ℕ

-- both numbers fit two bytes
abbrev pub Fits : List Field → Type 0
Fits [] = Unit {0}
Fits (f ∷ fs) = (f.header_id < 65536) × (length f.payload < 65536) × Fits fs

-- the bytes of a list of fields
unfoldable pub encode : List Field → List ℕ
encode [] = []
encode (f ∷ fs) =
    (f.header_id % 256)
    ∷ (f.header_id / 256)
    ∷ (length f.payload % 256)
    ∷ (length f.payload / 256)
    ∷ (f.payload ++ encode fs)

-- the fields are tested in their order, up to the first that is refused
unfoldable pub check_all : List Field → Result ArchiveCode (Unit {0})
check_all [] = ok tt
check_all (f ∷ fs) = do check_field f.header_id f.payload; check_all fs

little-bytes : (n : ℕ) → little (n % 256) (n / 256) ≡ n
little-bytes n = omega arith

check_fields-encode :
    (fs : List Field) (fuel : ℕ)
    → Fits fs
    → length (encode fs) ≤ fuel
    → check_fields fuel (encode fs) ≡ check_all fs
unfolding encode check_fields check_all
check_fields-encode [] zero v h = refl
check_fields-encode [] (suc fuel) v h = refl
check_fields-encode (f ∷ fs) zero v h = absurd (omega arith)
check_fields-encode (f ∷ fs) (suc fuel) v h =
    simp (little-bytes, take-append, drop-append)
      (ground (arith, length-append f.payload (encode fs), check_fields-encode fs fuel))

-- The bytes of any list of fields are accepted or refused as the fields are one by one.
pub reject-encode :
    (fs : List Field) → Fits fs → reject_link_extra_fields (encode fs) ≡ check_all fs
unfolding reject_link_extra_fields
reject-encode fs v = check_fields-encode fs (length (encode fs)) v (omega arith)

-- more fuel than bytes changes nothing
pub check_fields-fuel :
    (fuel more : ℕ) (extra : List ℕ)
    → length extra ≤ fuel
    → fuel ≤ more
    → check_fields more extra ≡ check_fields fuel extra
unfolding check_fields
check_fields-fuel fuel more [] h k = refl
check_fields-fuel zero more (a ∷ extra) h k = absurd (omega arith)
check_fields-fuel (suc fuel) zero (a ∷ extra) h k = absurd (omega arith)
check_fields-fuel (suc fuel) (suc more) (a ∷ b ∷ c ∷ d ∷ extra) h k =
    ground
      (arith, check_fields-fuel fuel more (drop (little c d) extra), length-drop (little c d) extra)
check_fields-fuel (suc fuel) (suc more) (a ∷ extra) h k = refl
