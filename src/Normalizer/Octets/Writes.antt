-- ===== src/Normalizer/Octets/Writes.antt =====
-- One step of `normalize_estr` of src/normalizer.rs on valid text.
use mathlib.Core.Path.{ap₂}
use fluent_uri_rs.Spec.{colon_first}
use fluent_uri_rs.Base.{
  starts_with, ◌≤◌, length, arith, ℕ, Bool, true, false, [], ◌∷◌, ◌++◌, map, append-nil,
  append_assoc, ◌==◌, Bytes, to_ascii_uppercase, ◌≡◌, refl, sym, ap, ◌∙◌,
}
use fluent_uri_rs.Base.Run.{Run, done}
use fluent_uri_rs.Encoding.{decode_octet, decode_loop}
use fluent_uri_rs.EStr.RoundTrip.{decode_loop-plain}
use fluent_uri_rs.Normalizer.{lower_if, normalize_octet, normalize_estr}
use fluent_uri_rs.Reader.V4Octet.{IsDotted}
use fluent_uri_rs.Table.{Table, allows}
use fluent_uri_rs.Table.Consts.{hexdig, unreserved}
use fluent_uri_rs.Table.Laws.{IsTable, allows-ne}
use fluent_uri_rs.Normalizer.Octets.{
  Normal, normal_nil, normal_byte, normal_octet, Lowers, lower_twice, upper_digit, upper_twice,
  decode_octet_upper, reserved_lower,
}
use fluent_uri_rs.Normalizer.Octets.Firsts.{
  not_lowered, no_sign, slash_kept, byte_twice, byte_colons, unreserved_first, octet_colons,
}

-- One step of the loop.
pub normalize_estr-plain :
    (buf : Bytes) (x : ℕ) (s : Bytes) (low : Bool)
    → (x == b'%') ≡ false
    → normalize_estr buf (x ∷ s) low ≡ normalize_estr (buf ++ (lower_if low x ∷ [])) s low
unfolding normalize_estr
normalize_estr-plain buf x [] low h = rw h refl
normalize_estr-plain buf x (y ∷ []) low h = rw h refl
normalize_estr-plain buf x (y ∷ z ∷ s) low h = rw h refl

-- What the loop writes, `r`, and what the text and `r` decode to, `d` and `e`.
pub record Step (t : Table) (low : Bool) (s r d e : Bytes) : Type 0 where
  pub writes : (buf : Bytes) → normalize_estr buf s low ≡ done (buf ++ r)
  pub stays : (buf : Bytes) → normalize_estr buf r low ≡ done (buf ++ r)
  pub is_normal : Normal t low r
  pub before : (buf : Bytes) → decode_loop s buf ≡ done (buf ++ d)
  pub after : (buf : Bytes) → decode_loop r buf ≡ done (buf ++ e)
  pub same : e ≡ map (lower_if low) d
  pub shorter : length r ≤ length s
  pub kept : length s ≤ length r → IsDotted r → r ≡ s
  pub begins : starts_with r (b'/' ∷ []) ≡ starts_with s (b'/' ∷ [])
  pub begins_twice : starts_with r (b'/' ∷ b'/' ∷ []) ≡ starts_with s (b'/' ∷ b'/' ∷ [])
  pub colons : colon_first r ≡ colon_first s

-- A run on the rest goes on behind what is written first.
behind :
    (w r buf : Bytes) {a : Run Bytes} (run : Bytes → Run Bytes)
    → a ≡ run (buf ++ w)
    → ((buf : Bytes) → run buf ≡ done (buf ++ r))
    → a ≡ done (buf ++ (w ++ r))
behind w r buf run e h = e ∙ h (buf ++ w) ∙ ap done (append_assoc buf w r)

pub nil-Step : (t : Table) (low : Bool) → Step t low [] [] [] []
unfolding normalize_estr decode_loop
nil-Step t low = record {
  writes = λ buf. ap done (sym (append-nil buf));
  stays = λ buf. ap done (sym (append-nil buf));
  is_normal = normal_nil;
  before = λ buf. ap done (sym (append-nil buf));
  after = λ buf. ap done (sym (append-nil buf));
  same = refl;
  shorter = omega arith;
  kept = λ n k. refl;
  begins = refl;
  begins_twice = refl;
  colons = refl;
}

pub byte-Step :
    {t : Table} {low : Bool} {s r d e : Bytes} (x : ℕ)
    → IsTable t
    → Lowers t low
    → (x == b'%') ≡ false
    → allows t x ≡ true
    → Step t low s r d e
    → Step t low (x ∷ s) (lower_if low x ∷ r) (x ∷ d) (lower_if low x ∷ e)
byte-Step {t} {low} {s} {r} {d} {e} x i l n a v =
    let y = lower_if low x in
    let m : (y == b'%') ≡ false = allows-ne i y (l x a) in
    record {
      writes = λ buf.
          behind (y ∷ []) r buf (λ b. normalize_estr b s low) (normalize_estr-plain buf x s low n)
            v.writes;
      stays = λ buf.
          behind (y ∷ []) r buf (λ b. normalize_estr b r low)
            (normalize_estr-plain buf y r low m
              ∙ ap (λ z. normalize_estr (buf ++ (z ∷ [])) r low) (lower_twice low x))
            v.stays;
      is_normal = normal_byte m (l x a) (lower_twice low x) v.is_normal;
      before = λ buf. behind (x ∷ []) d buf (decode_loop s) (decode_loop-plain x s buf n) v.before;
      after = λ buf. behind (y ∷ []) e buf (decode_loop r) (decode_loop-plain y r buf m) v.after;
      same = ap (λ e. y ∷ e) v.same;
      shorter = omega (arith, v.shorter);
      kept = λ n k. ap₂ (λ x s. x ∷ s) (not_lowered low x k.0) (v.kept (omega (arith, n)) k.1);
      begins = slash_kept low x;
      begins_twice = byte_twice low x r s v.begins;
      colons = byte_colons low x r s v.colons;
    }

normalize_estr-octet :
    (buf : Bytes) (hi lo : ℕ) (s : Bytes) (low : Bool)
    → normalize_estr buf (b'%' ∷ hi ∷ lo ∷ s) low
      ≡ normalize_estr (buf ++ normalize_octet low hi lo) s low
unfolding normalize_estr
normalize_estr-octet buf hi lo s low = refl

decode_loop-octet :
    (hi lo : ℕ) (s buf : Bytes)
    → decode_loop (b'%' ∷ hi ∷ lo ∷ s) buf ≡ decode_loop s (buf ++ (decode_octet hi lo ∷ []))
unfolding decode_loop
decode_loop-octet hi lo s buf = refl

octet_unreserved :
    (low : Bool) (hi lo : ℕ)
    → allows unreserved (decode_octet hi lo) ≡ true
    → normalize_octet low hi lo ≡ lower_if low (decode_octet hi lo) ∷ []
unfolding normalize_octet
octet_unreserved low hi lo h = rw (normalize_octet, h) refl

octet_reserved :
    (low : Bool) (hi lo : ℕ)
    → allows unreserved (decode_octet hi lo) ≡ false
    → normalize_octet low hi lo ≡ b'%' ∷ to_ascii_uppercase hi ∷ to_ascii_uppercase lo ∷ []
unfolding normalize_octet
octet_reserved low hi lo h = rw (normalize_octet, h) refl

-- An octet of an unreserved character becomes that character.
pub unreserved-Step :
    {t : Table} {low : Bool} {s r d e : Bytes} (hi lo : ℕ)
    → IsTable t
    → Lowers t low
    → allows hexdig hi ≡ true
    → allows hexdig lo ≡ true
    → allows t (decode_octet hi lo) ≡ true
    → allows unreserved (decode_octet hi lo) ≡ true
    → Step t low s r d e
    → Step t low
        (b'%' ∷ hi ∷ lo ∷ s)
        (lower_if low (decode_octet hi lo) ∷ r)
        (decode_octet hi lo ∷ d)
        (lower_if low (decode_octet hi lo) ∷ e)
unreserved-Step {t} {low} {s} {r} {d} {e} hi lo i l h k a u v =
    let o = decode_octet hi lo in
    let p = byte-Step o i l (allows-ne i o a) a v in
    record {
      writes = λ buf.
          behind (lower_if low o ∷ []) r buf (λ b. normalize_estr b s low)
            (normalize_estr-octet buf hi lo s low
              ∙ ap (λ z. normalize_estr (buf ++ z) s low) (octet_unreserved low hi lo u))
            v.writes;
      stays = p.stays;
      is_normal = p.is_normal;
      before =
          λ buf. behind (o ∷ []) d buf (decode_loop s) (decode_loop-octet hi lo s buf) v.before;
      after = p.after;
      same = p.same;
      shorter = omega (arith, v.shorter);
      kept = λ n k. absurd (omega (arith, v.shorter, n));
      begins = (unreserved_first low o r u).0;
      begins_twice = (unreserved_first low o r u).1;
      colons = (unreserved_first low o r u).2 ∙ v.colons ∙ sym (octet_colons hi lo s h k);
    }

-- Any other octet has its digits raised.
pub reserved-Step :
    {t : Table} {low : Bool} {s r d e : Bytes} (hi lo : ℕ)
    → t.allows_enc ≡ true
    → allows hexdig hi ≡ true
    → allows hexdig lo ≡ true
    → allows unreserved (decode_octet hi lo) ≡ false
    → Step t low s r d e
    → Step t low
        (b'%' ∷ hi ∷ lo ∷ s)
        (b'%' ∷ to_ascii_uppercase hi ∷ to_ascii_uppercase lo ∷ r)
        (decode_octet hi lo ∷ d)
        (decode_octet hi lo ∷ e)
reserved-Step {t} {low} {s} {r} {d} {e} hi lo q h k u v =
    let o = decode_octet hi lo in
    let up = to_ascii_uppercase hi in
    let down = to_ascii_uppercase lo in
    let again : decode_octet up down ≡ o = decode_octet_upper hi lo h k in
    let plain : allows unreserved (decode_octet up down) ≡ false =
      ap (allows unreserved) again ∙ u in
    let w = b'%' ∷ up ∷ down ∷ [] in
    record {
      writes = λ buf.
          behind w r buf (λ b. normalize_estr b s low)
            (normalize_estr-octet buf hi lo s low
              ∙ ap (λ z. normalize_estr (buf ++ z) s low) (octet_reserved low hi lo u))
            v.writes;
      stays = λ buf.
          behind w r buf (λ b. normalize_estr b r low)
            (normalize_estr-octet buf up down r low
              ∙ ap (λ z. normalize_estr (buf ++ z) r low)
                  (octet_reserved low up down plain
                    ∙ ap (λ x. b'%' ∷ x ∷ to_ascii_uppercase down ∷ []) (upper_twice hi)
                    ∙ ap (λ y. b'%' ∷ up ∷ y ∷ []) (upper_twice lo)))
            v.stays;
      is_normal =
          normal_octet q ((upper_digit hi h).0, upper_twice hi)
            ((upper_digit lo k).0, upper_twice lo) plain v.is_normal;
      before =
          λ buf. behind (o ∷ []) d buf (decode_loop s) (decode_loop-octet hi lo s buf) v.before;
      after = λ buf.
          behind (o ∷ []) e buf (decode_loop r)
            (decode_loop-octet up down r buf ∙ ap (λ z. decode_loop r (buf ++ (z ∷ []))) again)
            v.after;
      same = ap (λ z. z ∷ e) (sym (reserved_lower low o u)) ∙ ap (λ e. lower_if low o ∷ e) v.same;
      shorter = omega (arith, v.shorter);
      kept = λ n k. absurd (no_sign k.0);
      begins = refl;
      begins_twice = refl;
      colons =
          octet_colons up down r (upper_digit hi h).0 (upper_digit lo k).0
          ∙ v.colons
          ∙ sym (octet_colons hi lo s h k);
    }
