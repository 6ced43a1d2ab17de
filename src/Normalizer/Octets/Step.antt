-- ===== src/Normalizer/Octets/Step.antt =====
-- The steps of `normalize_estr` of src/normalizer.rs on valid text.
use fluent_uri_rs.Spec.{colon_first}
use fluent_uri_rs.Base.{
  starts_with, length, ◌≤◌, Bool, true, false, [], ◌∷◌, ◌++◌, map, Bytes, to_ascii_uppercase,
  Bool-cases, ◌≡◌, refl, ap, ◌∙◌, inl, inr,
}
use fluent_uri_rs.Base.Run.{done}
use fluent_uri_rs.Encoding.{decode_octet, decode_loop}
use fluent_uri_rs.Normalizer.{lower_if, normalize_estr}
use fluent_uri_rs.Table.{Table, allows, is_subset}
use fluent_uri_rs.Table.Consts.{unreserved, reg_name}
use fluent_uri_rs.Table.Facts.{unreserved-IsTable, reg_name-IsTable}
use fluent_uri_rs.Table.Laws.{IsTable, allows-is_subset}
use fluent_uri_rs.Table.Validate.{Valid, nil, byte, octet}
use fluent_uri_rs.Normalizer.Octets.{Normal, Lowers, reg_name-Lowers}
use fluent_uri_rs.Normalizer.Rewrites.{Normalizes}
use fluent_uri_rs.Reader.V4Octet.{IsDotted}
use fluent_uri_rs.Normalizer.Octets.Writes.{
  Step, nil-Step, byte-Step, unreserved-Step, reserved-Step,
}

normalize_estr-Step :
    {t : Table} {low : Bool} {s : Bytes}
    → IsTable t
    → Lowers t low
    → is_subset unreserved t ≡ true
    → Valid t s
    → (r d e : Bytes) × Step t low s r d e
normalize_estr-Step {t = t} {low = low} i l b nil = ([], [], [], nil-Step t low)
normalize_estr-Step {t = t} {low = low} i l b (byte {x} n a v) =
    let (r, d, e, p) = normalize_estr-Step {t = t} {low = low} i l b v in
    (lower_if low x ∷ r, x ∷ d, lower_if low x ∷ e, byte-Step x i l n a p)
normalize_estr-Step {t = t} {low = low} i l b (octet {hi} {lo} q h k v) =
    let (r, d, e, p) = normalize_estr-Step {t = t} {low = low} i l b v in
    let o = decode_octet hi lo in
    elim (Bool-cases (allows unreserved o)) [
      | inl u ↦ (
        lower_if low o ∷ r,
        o ∷ d,
        lower_if low o ∷ e,
        unreserved-Step hi lo i l h k (allows-is_subset t unreserved-IsTable b o u) u p,
      )
      | inr u ↦ (
        b'%' ∷ to_ascii_uppercase hi ∷ to_ascii_uppercase lo ∷ r,
        o ∷ d,
        o ∷ e,
        reserved-Step hi lo q h k u p,
      )
    ]

normalizes : {t : Table} {low : Bool} {s r d e : Bytes} → Step t low s r d e → Normalizes t low s r
normalizes {d = d} p = (p.is_normal, d, p.before [], p.after [] ∙ ap done p.same)

-- The text is not longer; slashes at the beginning, and a colon in front of the first slash, stay.
abbrev pub Same : Bytes → Bytes → Type 0
Same s r =
    (length r ≤ length s)
    × (starts_with r (b'/' ∷ []) ≡ starts_with s (b'/' ∷ []))
    × (starts_with r (b'/' ∷ b'/' ∷ []) ≡ starts_with s (b'/' ∷ b'/' ∷ []))
    × (colon_first r ≡ colon_first s)

-- What is written behind any text where the case is kept.
pub keeps_case :
    {t : Table} {s : Bytes}
    → IsTable t
    → is_subset unreserved t ≡ true
    → Valid t s
    → (r : Bytes) × ((buf : Bytes) → normalize_estr buf s false ≡ done (buf ++ r))
      × Normalizes t false s r
      × Same s r
keeps_case {t} i b v =
    let (r, d, e, p) = normalize_estr-Step {t = t} {low = false} i (λ x h. h) b v in
    (r, p.writes, normalizes p, (p.shorter, p.begins, p.begins_twice, p.colons))

-- What is written behind any text for a registered name.
pub lowers_case :
    {s : Bytes}
    → Valid reg_name s
    → (r : Bytes) × ((buf : Bytes) → normalize_estr buf s true ≡ done (buf ++ r))
      × Normalizes reg_name true s r
      × (length s ≤ length r → IsDotted r → r ≡ s)
unfolding is_subset unreserved reg_name
lowers_case v =
    let (r, d, e, p) =
      normalize_estr-Step {t = reg_name} {low = true} reg_name-IsTable reg_name-Lowers refl v in
    (r, p.writes, normalizes p, p.kept)

-- On valid text of a table of ASCII bytes that holds the unreserved characters, and what its letters
-- are lowered to, `normalize_estr` does not panic; what it writes is in normal form and is left as it
-- is by `normalize_estr`.
pub normalize_estr-Normal :
    (t : Table) (low : Bool) (s buf : Bytes)
    → IsTable t
    → Lowers t low
    → is_subset unreserved t ≡ true
    → Valid t s
    → (r : Bytes) × (normalize_estr buf s low ≡ done (buf ++ r))
      × Normal t low r
      × (normalize_estr buf r low ≡ done (buf ++ r))
normalize_estr-Normal t low s buf i l b v =
    let (r, d, e, p) = normalize_estr-Step {t = t} {low = low} i l b v in
    (r, p.writes buf, p.is_normal, p.stays buf)

-- Valid text of a table of ASCII bytes that holds the unreserved characters, and what its letters are
-- lowered to, is rewritten by `normalize_estr` without a panic to a text that decodes to the same
-- bytes, with their letters lowered where `to_lowercase` is set.
pub normalize_estr-decode_loop :
    (t : Table) (low : Bool) (s : Bytes)
    → IsTable t
    → Lowers t low
    → is_subset unreserved t ≡ true
    → Valid t s
    → (r d : Bytes) × (normalize_estr [] s low ≡ done r)
      × (decode_loop s [] ≡ done d)
      × (decode_loop r [] ≡ done (map (lower_if low) d))
normalize_estr-decode_loop t low s i l b v =
    let (r, d, e, p) = normalize_estr-Step {t = t} {low = low} i l b v in
    (r, d, p.writes [], p.before [], p.after [] ∙ ap done p.same)
