-- ===== src/Parser/Authority.antt =====
-- `read_authority` on a well-formed authority, in front of the path.
use fluent_uri_rs.Base.{
  ℕ, ◌+◌, ◌-◌, true, false, [], ◌∷◌, ◌++◌, append_assoc, ltb, ◌==◌, Bytes, length, slice,
  drop-append, take-append, length-append, ◌≡◌, refl, sym, ap, ◌∙◌, inl, inr, arith,
}
use fluent_uri_rs.Error.{ok}
use fluent_uri_rs.Parser.{
  peek_is, note_colon, check_port, read_after_userinfo, read_literal_or_empty, split_authority,
  read_authority,
}
use fluent_uri_rs.Parser.Host.{AuthStops, rest-Stops}
use fluent_uri_rs.Parser.Path.{peek_is-at_nil, peek_is-at_cons, hex_colon}
use fluent_uri_rs.Reader.{Reader, read_enc}
use fluent_uri_rs.Reader.Reads.{scan, read_enc-Valid}
use fluent_uri_rs.Reader.Span.{Stops}
use fluent_uri_rs.Reader.V4.{parse_v4_or_reg_name}
use fluent_uri_rs.Reader.View.{at}
use fluent_uri_rs.Table.{allows}
use fluent_uri_rs.Table.Consts
use fluent_uri_rs.Table.Relate.{allows-ne_byte, allows-digit}
use fluent_uri_rs.Table.Validate.{Valid, nil, byte, octet}

-- The closure counts colons alone.
note_other : (i x : ℕ) (s : ℕ × ℕ) → (x == b':') ≡ false → note_colon i x s ≡ s
unfolding note_colon
note_other i x (c, k) h = rw h

pub note_percent : (i : ℕ) (s : ℕ × ℕ) → note_colon i b'%' s ≡ s
note_percent i s = note_other i b'%' s refl

pub note_hex : (i x : ℕ) (s : ℕ × ℕ) → allows Consts.hexdig x ≡ true → note_colon i x s ≡ s
note_hex i x s a = note_other i x s (allows-ne_byte Consts.hexdig x b':' a hex_colon)

-- `read_enc(USERINFO, …)` over a userinfo word.
pub userinfo_read :
    {w : Bytes} (pre l : Bytes)
    → Valid Consts.userinfo w
    → Stops Consts.userinfo l
    → read_enc Consts.userinfo note_colon (0, 0) (at pre (w ++ l))
      ≡ ok (scan note_colon w (length pre) (0, 0), at (pre ++ w) l)
userinfo_read pre l v s =
    read_enc-Valid Consts.userinfo note_colon pre l (0, 0) userinfo_enc note_percent
      (λ i x s. note_hex i x s) v s
  where
    userinfo_enc : (Consts.userinfo).allows_enc ≡ true
    userinfo_enc = unfold Consts.userinfo in refl

-- A registered name and a port have no colons in them.
pub scan-named :
    {t : fluent_uri_rs.Table.Table} {w : Bytes} (i : ℕ) (s : ℕ × ℕ)
    → allows t b':' ≡ false
    → Valid t w
    → scan note_colon w i s ≡ s
scan-named i s h nil = refl
scan-named {t} i s h (byte {x} {w} n a v) =
    ap (scan note_colon w (i + 1)) (note_other i x s (allows-ne_byte t x b':' a h))
    ∙ scan-named (i + 1) s h v
scan-named i s h (octet {hi} {lo} {w} e a b v) =
    rw (note_percent i s, note_hex (i + 1) hi s a, note_hex (i + 1 + 1) lo s b)
      (scan-named (i + 1 + 1 + 1) s h v)

pub scan-append :
    (v w : Bytes) (i : ℕ) (s : ℕ × ℕ)
    → scan note_colon (v ++ w) i s ≡ scan note_colon w (i + length v) (scan note_colon v i s)
scan-append [] w i s = ap (λ k. scan note_colon w k s) (omega arith)
scan-append (x ∷ v) w i s =
    scan-append v w (i + 1) (note_colon i x s)
    ∙ ap (λ k. scan note_colon w k (scan note_colon v (i + 1) (note_colon i x s))) (omega arith)

pub slice-at : (pre w l : Bytes) → slice (length pre) (length pre + length w) (pre ++ (w ++ l)) ≡ w
slice-at pre w l =
    let n : length pre + length w - length pre ≡ length w = omega arith in
    rw (drop-append pre (w ++ l), n, take-append w l)

-- `check_port` over digits.
check_port-digits : {p : Bytes} (i : ℕ) → Valid Consts.digit p → check_port p i ≡ ok tt
unfolding check_port
check_port-digits i nil = refl
check_port-digits i (byte {x} n a v) = rw (sym (allows-digit x) ∙ a) (check_port-digits (i + 1) v)
check_port-digits i (octet e a b v) = absurd (no_octet e)
  where
    no_octet : (Consts.digit).allows_enc ≡ true → ⊥
    no_octet e = unfold Consts.digit in cc

-- The bytes behind the colon.
pub port_slice :
    (pre h p rest : Bytes)
    → slice
        (length pre + length h + 1)
        (length (pre ++ (h ++ (b':' ∷ p))))
        ((pre ++ (h ++ (b':' ∷ p))) ++ rest)
      ≡ p
port_slice pre h p rest =
    let whole = pre ++ (h ++ (b':' ∷ p)) in
    let front = pre ++ (h ++ (b':' ∷ [])) in
    let front_len : length front ≡ length pre + length h + 1 =
      rw (length-append pre (h ++ (b':' ∷ [])), length-append h (b':' ∷ [])) (omega arith) in
    let whole_len : length whole ≡ length front + length p =
      rw (front_len, length-append pre (h ++ (b':' ∷ p)), length-append h (b':' ∷ p))
        (omega arith) in
    let by_front : whole ++ rest ≡ front ++ (p ++ rest) = simp append_assoc in
    rw (← front_len, whole_len, by_front) (slice-at front p rest)

-- The third branch, without and with a port.
pub split-none :
    (pre h rest : Bytes)
    → split_authority (length pre) (0, 0) (at (pre ++ h) rest)
      ≡ ok (
        record {
          host_bounds = (length pre, length pre + length h);
          host_meta = parse_v4_or_reg_name h;
        },
        at (pre ++ h) rest,
      )
unfolding split_authority
split-none pre h rest =
    let text : slice (length pre) (length pre + length h) ((pre ++ h) ++ rest) ≡ h =
      ap (slice (length pre) (length pre + length h)) (append_assoc pre h rest)
      ∙ slice-at pre h rest in
    rw (length-append pre h, text)

pub split-some :
    (pre h p rest : Bytes)
    → Valid Consts.digit p
    → split_authority (length pre) (1, length pre + length h) (at (pre ++ (h ++ (b':' ∷ p))) rest)
      ≡ ok (
        record {
          host_bounds = (length pre, length pre + length h);
          host_meta = parse_v4_or_reg_name h;
        },
        at (pre ++ (h ++ (b':' ∷ p))) rest,
      )
unfolding split_authority
split-some pre h p rest v =
    let whole = pre ++ (h ++ (b':' ∷ p)) in
    let by_pre : whole ++ rest ≡ pre ++ (h ++ (b':' ∷ (p ++ rest))) = simp append_assoc in
    let name : slice (length pre) (length pre + length h) (whole ++ rest) ≡ h =
      rw by_pre (slice-at pre h (b':' ∷ (p ++ rest))) in
    rw (port_slice pre h p rest, check_port-digits (length pre + length h + 1) v, name)

-- The three branches of the method, by what was read first.
module _ (r : Reader) {colons : ℕ × ℕ} {r1 : Reader}
    (read : read_enc Consts.userinfo note_colon (0, 0) r ≡ ok (colons, r1)) where
  pub branch_userinfo : peek_is r1 b'@' ≡ true → read_authority r ≡ read_after_userinfo r1
  unfolding read_authority
  branch_userinfo h = rw (read, h)

  pub branch_literal :
      peek_is r1 b'@' ≡ false
      → (r1.pos == r.pos) ≡ true
      → read_authority r ≡ read_literal_or_empty r1
  unfolding read_authority
  branch_literal h g = rw (read, h, g)

  pub branch_split :
      peek_is r1 b'@' ≡ false
      → (r1.pos == r.pos) ≡ false
      → read_authority r ≡ split_authority r.pos colons r1
  unfolding read_authority
  branch_split h g = rw (read, h, g)

pub rest-peek : (pre rest : Bytes) → AuthStops rest → peek_is (at pre rest) b'@' ≡ false
rest-peek pre [] s = peek_is-at_nil pre b'@'
rest-peek pre (x ∷ l) (inl e) = peek_is-at_cons pre l x b'@' ∙ rw e refl
rest-peek pre (x ∷ l) (inr (inl e)) = peek_is-at_cons pre l x b'@' ∙ rw e refl
rest-peek pre (x ∷ l) (inr (inr e)) = peek_is-at_cons pre l x b'@' ∙ rw e refl

pub same_pos : (pre : Bytes) → (length pre == length pre) ≡ true
same_pos pre = ground arith

pub longer_pos :
    (pre w : Bytes) → ltb 0 (length w) ≡ true → (length (pre ++ w) == length pre) ≡ false
longer_pos pre w h = rw (length-append pre w) (ground arith)

pub rest-userinfo : (rest : Bytes) → AuthStops rest → Stops Consts.userinfo rest
unfolding allows Consts.userinfo
rest-userinfo rest s = rest-Stops Consts.userinfo rest refl refl refl s

pub colon-reg_name : allows Consts.reg_name b':' ≡ false
unfolding allows Consts.reg_name
colon-reg_name = refl

-- A word that is read whole, and is not empty.
pub named_split :
    (pre w rest : Bytes)
    → ltb 0 (length w) ≡ true
    → Valid Consts.userinfo w
    → AuthStops rest
    → read_authority (at pre (w ++ rest))
      ≡ split_authority (length pre) (scan note_colon w (length pre) (0, 0)) (at (pre ++ w) rest)
named_split pre w rest h v s =
    branch_split _ (userinfo_read pre rest v (rest-userinfo rest s)) (rest-peek (pre ++ w) rest s)
      (longer_pos pre w h)
