-- ===== src/Parser/Total/Authority.antt =====
-- `parse_from_authority` of src/parser.rs on every input: the authority, up to the path.
use fluent_uri_rs.Base.{
  ℕ, ◌+◌, false, Option, none, some, [], ◌∷◌, ◌++◌, append-nil, ◌==◌, Bytes, length, Bool-cases,
  ==_iff, ◌≡◌, refl, sym, ap, ◌∙◌, ◌⊎◌, inl, inr, arith,
}
use fluent_uri_rs.Error.{ok, err, ParseErrorKind, ◌>>=◌, invalid_octet}
use fluent_uri_rs.Net.{AuthMeta, reg_name}
use fluent_uri_rs.Parser.{
  peek_is, note_colon, read_after_userinfo, read_literal_or_empty, read_authority,
}
use fluent_uri_rs.Parser.Authority.{
  userinfo_read, note_percent, note_hex, longer_pos, same_pos, branch_userinfo, branch_literal,
  branch_split,
}
use fluent_uri_rs.Parser.Host.{port_text, literal_miss}
use fluent_uri_rs.Parser.Path.{peek_is-at_nil, peek_is-at_cons}
use fluent_uri_rs.Parser.Total.Colons.{name_total}
use fluent_uri_rs.Parser.Total.Host.{host_total, Port-total}
use fluent_uri_rs.Parser.AuthorityStart.{after_by, literal_by, empty_by}
use fluent_uri_rs.Reader.{Reader, skip, read_enc}
use fluent_uri_rs.Reader.Host.{read_host, read_ip_literal}
use fluent_uri_rs.Reader.Host.Total.{Literal-total}
use fluent_uri_rs.Reader.Reads.{scan, read_enc-broken}
use fluent_uri_rs.Reader.Span.{split, Broken}
use fluent_uri_rs.Reader.Total.{Fails, length-splits, length-whole}
use fluent_uri_rs.Reader.V4.{parse_v4_or_reg_name}
use fluent_uri_rs.Reader.View.{at, at-skip}
use fluent_uri_rs.Spec.{AuthParts, write_userinfo, write_port, named, IsAuth}
use fluent_uri_rs.Table.Consts
use fluent_uri_rs.Table.Facts
use fluent_uri_rs.Table.Validate.{Valid, nil}

-- An authority, in front of `tail`.
pub record AuthRead (pre l : Bytes) : Type 0 where
  pub auth : AuthParts
  pub meta : AuthMeta
  pub passed : Bytes
  pub tail : Bytes
  pub is_auth : IsAuth auth
  pub splits : l ≡ write_userinfo auth.userinfo (auth.host ++ write_port auth.port tail)
  pub same : length passed + length tail ≡ length pre + length l
  pub runs : read_authority (at pre l) ≡ ok (meta, at passed tail)

abbrev Outcome : Bytes → Bytes → Type 0
Outcome pre l = AuthRead pre l ⊎ Fails (length pre + length l) (read_authority (at pre l))

-- The whole input, in front of and behind a port.
port-same :
    (pre l : Bytes) (port : Option Bytes) (tail : Bytes)
    → l ≡ write_port port tail
    → length (pre ++ port_text port) + length tail ≡ length pre + length l
port-same pre l none tail e = length-whole pre [] tail e
port-same pre l (some p) tail e = length-whole pre (b':' ∷ p) tail e

peek_cases : (pre l : Bytes) → ((t : Bytes) × (l ≡ b'@' ∷ t)) ⊎ (peek_is (at pre l) b'@' ≡ false)
peek_cases pre [] = inr (peek_is-at_nil pre b'@')
peek_cases pre (x ∷ l) = elim (Bool-cases (x == b'@')) [
  | inl e ↦ inl (l, ap (λ x. x ∷ l) ((==_iff x b'@').0 e))
  | inr e ↦ inr (peek_is-at_cons pre l x b'@' ∙ e)
]

after_fails :
    (r : Reader) {r1 : Reader} {i : ℕ} {k : ParseErrorKind}
    → skip 1 r ≡ r1
    → read_host r1 ≡ err i k
    → read_after_userinfo r ≡ err i k
unfolding read_after_userinfo
after_fails r e f =
    ap
      (λ r1. read_host r1 >>= λ (m, r2). ok (
        record { host_bounds = (r1.pos, r2.pos); host_meta = m },
        fluent_uri_rs.Reader.V4.read_port r2,
      ))
      e
    ∙ rw f refl

literal_fails :
    (r : Reader) {i : ℕ} {k : ParseErrorKind}
    → read_ip_literal r ≡ err i k
    → read_literal_or_empty r ≡ err i k
unfolding read_literal_or_empty
literal_fails r e = rw e refl

authority_fails :
    (r : Reader) {i : ℕ} {k : ParseErrorKind}
    → read_enc Consts.userinfo note_colon (0, 0) r ≡ err i k
    → read_authority r ≡ err i k
unfolding read_authority
authority_fails r e = rw e refl

module _ (pre l u t : Bytes) (e : l ≡ u ++ (b'@' ∷ t)) (v : Valid Consts.userinfo u)
    (run : read_enc Consts.userinfo note_colon (0, 0) (at pre l)
      ≡ ok (scan note_colon u (length pre) (0, 0), at (pre ++ u) (b'@' ∷ t))) where
  with_userinfo : Outcome pre l
  with_userinfo =
      let mid = (pre ++ u) ++ (b'@' ∷ []) in
      let begins = branch_userinfo (at pre l) run (peek_is-at_cons (pre ++ u) t b'@' b'@') in
      let moved = at-skip (pre ++ u) (b'@' ∷ []) t in
      let taken : length mid + length t ≡ length pre + length l =
        omega
          (arith, length-whole pre u (b'@' ∷ t) e, length-whole (pre ++ u) (b'@' ∷ []) t refl) in
      elim (host_total mid t) [
        | inr (i, k, f, h) ↦ inr (i, k, begins ∙ after_fails _ moved f, omega (arith, h, taken))
        | inl h ↦
            let p = Port-total (mid ++ h.host) h.tail in
            inl (record {
              auth = record { userinfo = some u; host = h.host; host_meta = h.meta; port = p.port };
              meta = record {
                host_bounds = (length mid, length (mid ++ h.host));
                host_meta = h.meta;
              };
              passed = (mid ++ h.host) ++ port_text p.port;
              tail = p.tail;
              is_auth = record { userinfo_valid = v; host_valid = h.is_host; port_valid = p.valid };
              splits = e ∙ ap (λ t. u ++ (b'@' ∷ t)) (h.splits ∙ ap (λ t. h.host ++ t) p.splits);
              same = omega (
                arith,
                taken,
                length-whole mid h.host h.tail h.splits,
                port-same (mid ++ h.host) h.tail p.port p.tail p.splits,
              );
              runs =
                  begins
                  ∙ after_by _ moved h.runs
                  ∙ ap
                      (λ r. ok (
                        record {
                          host_bounds = (length mid, length (mid ++ h.host));
                          host_meta = h.meta;
                        },
                        r,
                      ))
                      p.runs;
            })
      ]

module _ (pre l : Bytes)
    (begins : read_authority (at pre l) ≡ read_literal_or_empty (at pre l)) where
  literal_or_empty : Outcome pre l
  literal_or_empty = elim (Literal-total pre l) [
    | inr (inr (i, k, f, h)) ↦ inr (i, k, begins ∙ literal_fails _ f, h)
    | inr (inl s) ↦ inl (record {
      auth = record {
        userinfo = none;
        host = [];
        host_meta = parse_v4_or_reg_name [];
        port = none;
      };
      meta = record { host_bounds = (length pre, length pre); host_meta = reg_name };
      passed = pre;
      tail = l;
      is_auth = record { userinfo_valid = tt; host_valid = named nil refl; port_valid = tt };
      splits = refl;
      same = refl;
      runs = begins ∙ empty_by _ (literal_miss pre l s);
    })
    | inl h ↦
        let p = Port-total (pre ++ h.host) h.tail in
        inl (record {
          auth = record { userinfo = none; host = h.host; host_meta = h.meta; port = p.port };
          meta = record { host_bounds = (length pre, length (pre ++ h.host)); host_meta = h.meta };
          passed = (pre ++ h.host) ++ port_text p.port;
          tail = p.tail;
          is_auth = record { userinfo_valid = tt; host_valid = h.is_host; port_valid = p.valid };
          splits = h.splits ∙ ap (λ t. h.host ++ t) p.splits;
          same = omega (
            arith,
            length-whole pre h.host h.tail h.splits,
            port-same (pre ++ h.host) h.tail p.port p.tail p.splits,
          );
          runs =
              begins
              ∙ literal_by _ h.runs
              ∙ ap
                  (λ r. ok (
                    record {
                      host_bounds = (length pre, length (pre ++ h.host));
                      host_meta = h.meta;
                    },
                    r,
                  ))
                  p.runs;
        })
  ]

-- Without a userinfo: what was read is empty, or a name with a port or none.
without_userinfo :
    (pre l w tail : Bytes)
    → l ≡ w ++ tail
    → Valid Consts.userinfo w
    → read_enc Consts.userinfo note_colon (0, 0) (at pre l)
      ≡ ok (scan note_colon w (length pre) (0, 0), at (pre ++ w) tail)
    → peek_is (at (pre ++ w) tail) b'@' ≡ false
    → Outcome pre l
without_userinfo pre l [] tail e v run p =
    let still : at (pre ++ []) tail ≡ at pre l = rw (append-nil pre, e) refl in
    literal_or_empty pre l (
      branch_literal (at pre l) (run ∙ ap (λ r. ok ((0, 0), r)) still)
        (ap (λ r. peek_is r b'@') (sym still) ∙ p) (same_pos pre))
without_userinfo pre l (x ∷ w) tail e v run p =
    let begins = branch_split (at pre l) run p (longer_pos pre (x ∷ w) (ground arith)) in
    elim (name_total pre (x ∷ w) tail v) [
      | inr (i, k, f, h) ↦ inr (i, k, begins ∙ f, omega (arith, h, length-splits (x ∷ w) tail e))
      | inl n ↦ inl (record {
        auth = record {
          userinfo = none;
          host = n.host;
          host_meta = parse_v4_or_reg_name n.host;
          port = n.port;
        };
        meta = n.meta;
        passed = pre ++ (x ∷ w);
        tail = tail;
        is_auth = record {
          userinfo_valid = tt;
          host_valid = named n.host_valid refl;
          port_valid = n.port_valid;
        };
        splits = e ∙ n.splits;
        same = length-whole pre (x ∷ w) tail e;
        runs = begins ∙ n.runs;
      })
    ]

broken_userinfo :
    (pre l : Bytes)
    → Broken Consts.userinfo l
    → Fails (length pre + length l) (read_authority (at pre l))
broken_userinfo pre l b = (
  length pre + length b.word,
  invalid_octet,
  ap (λ l. read_authority (at pre l)) b.splits
      ∙ authority_fails _ (
          read_enc-broken Consts.userinfo note_colon pre b.tail (0, 0) note_percent
            (λ i x s. note_hex i x s) b.valid b.broken),
  omega (arith, length-splits b.word (b'%' ∷ b.tail) b.splits),
)

pub authority_total :
    (pre l : Bytes) → AuthRead pre l ⊎ Fails (length pre + length l) (read_authority (at pre l))
authority_total pre l = elim (split Consts.userinfo l Facts.userinfo-IsTable) [
  | inr b ↦ inr (broken_userinfo pre l b)
  | inl s ↦
      let run =
        ap (λ l. read_enc Consts.userinfo note_colon (0, 0) (at pre l)) s.splits
        ∙ userinfo_read pre s.tail s.valid s.stops in
      elim (peek_cases (pre ++ s.word) s.tail) [
        | inr p ↦ without_userinfo pre l s.word s.tail s.splits s.valid run p
        | inl (t, e) ↦ with_userinfo pre l s.word t (s.splits ∙ ap (λ t. s.word ++ t) e) s.valid (
            run ∙ ap (λ t. ok (scan note_colon s.word (length pre) (0, 0), at (pre ++ s.word) t)) e)
      ]
]
