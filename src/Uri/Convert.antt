-- ===== src/Uri/Convert.antt =====
-- `Uri::parse`, `FromStr` and the conversions of `Uri` in src/lib.rs, and `ToUri` for a `String` in
-- src/internal.rs.
use fluent_uri_rs.Base.{Bytes}
use fluent_uri_rs.Base.Run.{Run}
use fluent_uri_rs.Error.{Result, ok, err, ParseError, no_input, with_input}
use fluent_uri_rs.Parser.{parse}
use fluent_uri_rs.Resolver.{Resolved, resolve}
use fluent_uri_rs.Uri.{Uri, to_uri}
use fluent_uri_rs.Uri.Traits.{as_str}

-- `Result<T, ParseError<I>>`
pub data Parsed (I A : Type 0) : Type 0 where
  accepted : A → Parsed I A
  refused : ParseError I → Parsed I A
  panicked : Parsed I A

-- `<String as ToUri>::to_uri`: the error keeps the input.
unfoldable pub string_to_uri : Bytes → Parsed Bytes Uri
unfolding with_input
string_to_uri s = elim (parse s) [
  | ok meta ↦ accepted (record { val = s; meta = meta })
  | err i k ↦ refused (with_input (record { index = i; kind = k; input = no_input }) s)
  | Result.panic ↦ panicked
]

-- `Uri::parse` on a `&str`
unfoldable pub parse_str : Bytes → Result Uri
unfolding to_uri
parse_str input = to_uri input

-- `Uri::borrow`
unfoldable pub borrow : Uri → Uri
borrow u = record { val = u.val; meta = u.meta }

-- `Uri::into_string`
unfoldable pub into_string : Uri → Bytes
into_string u = u.val

-- `Uri::to_owned`
unfoldable pub to_owned : Uri → Uri
to_owned u = record { val = u.val; meta = u.meta }

-- `Uri::as_ref`
unfoldable pub as_ref : Uri → Uri
unfolding as_str
as_ref u = record { val = as_str u; meta = u.meta }

-- `From<Uri<&str>>`
unfoldable pub from_borrowed : Uri → Uri
unfolding to_owned
from_borrowed u = to_owned u

-- `FromStr`
unfoldable pub from_str : Bytes → Result Uri
unfolding parse_str to_owned
from_str s = elim (parse_str s) [
  | ok u ↦ ok (to_owned u)
  | err i k ↦ err i k
  | Result.panic ↦ Result.panic
]

-- `Uri::resolve_against`
unfoldable pub resolve_against : Uri → Uri → Run (Resolved Uri)
unfolding as_ref
resolve_against u base = resolve (as_ref base) (as_ref u)
