-- ===== src/Builder/State.antt =====
-- src/builder/state.rs and the methods of `Builder<S>` in src/builder/mod.rs: the state is an index
-- of the type, and `S: To<T>` is an argument, the evidence that `S` may be followed by `T`.
use fluent_uri_rs.Base.{ℕ, not, ◌==◌, if◌then◌else◌, Option, none, some, Bytes}
use fluent_uri_rs.Base.Run.{Run, done, ◌>>=◌}
use fluent_uri_rs.Builder.{
  BuilderInner, new_inner, push_scheme, start_authority, push_userinfo, push_host, AsPort, port_u16,
  push_port, push_path, push_query, push_fragment, Built, build_inner,
}
use fluent_uri_rs.Uri.Authority.{Host}

pub data State : Type 0 where
  start scheme_end authority_start userinfo_end host_end port_end : State
  authority_end path_end query_end fragment_end end_of : State

-- `impl_to!`
pub data To : State → State → Type 0 where
  start_scheme : To start scheme_end
  start_authority_begin : To start authority_start
  start_authority_end : To start authority_end
  start_path : To start path_end
  scheme_authority_begin : To scheme_end authority_start
  scheme_authority_end : To scheme_end authority_end
  scheme_path : To scheme_end path_end
  authority_userinfo : To authority_start userinfo_end
  authority_host : To authority_start host_end
  userinfo_host : To userinfo_end host_end
  host_port : To host_end port_end
  host_authority : To host_end authority_end
  port_authority : To port_end authority_end
  authority_path : To authority_end path_end
  path_query : To path_end query_end
  path_fragment : To path_end fragment_end
  path_end_of : To path_end end_of
  query_fragment : To query_end fragment_end
  query_end_of : To query_end end_of
  fragment_end_of : To fragment_end end_of

pub data AdvanceDst : State → Type 0 where
  to_scheme : AdvanceDst scheme_end
  to_userinfo : AdvanceDst userinfo_end
  to_port : AdvanceDst port_end
  to_authority : AdvanceDst authority_end
  to_query : AdvanceDst query_end
  to_fragment : AdvanceDst fragment_end

pub record Builder (s : State) : Type 0 where
  pub inner : BuilderInner

-- `Builder::new`
abbrev pub new : Builder start
new = record { inner = new_inner }

abbrev pub cast : {s t : State} → To s t → Builder s → Builder t
cast to b = record { inner = b.inner }

unfoldable pub advance : {s t : State} → To s t → AdvanceDst t → Builder s → Builder t
advance to dst b = cast to b

unfoldable pub optional :
    {V : Type 0} {s t : State}
    → To s t
    → AdvanceDst t
    → (Builder s → V → Run (Builder t))
    → Option V
    → Builder s
    → Run (Builder t)
optional to dst f none b = done (cast to b)
optional to dst f (some v) b = f b v

unfoldable pub scheme : {s : State} → To s scheme_end → Bytes → Builder s → Builder scheme_end
scheme to v b = record { inner = push_scheme b.inner v }

unfoldable pub authority :
    {s t : State}
    → To s authority_start
    → To t authority_end
    → (Builder authority_start → Run (Builder t))
    → Builder s
    → Run (Builder authority_end)
authority to end f b =
    f (record { inner = start_authority b.inner }) >>= λ b1. done (record { inner = b1.inner })

unfoldable pub userinfo : {s : State} → To s userinfo_end → Bytes → Builder s → Builder userinfo_end
userinfo to v b = record { inner = push_userinfo b.inner v }

unfoldable pub host : {s : State} → To s host_end → Host → Builder s → Run (Builder host_end)
host to h b = push_host b.inner h >>= λ i. done (record { inner = i })

unfoldable pub port : {s : State} → To s port_end → AsPort → Builder s → Builder port_end
port to p b = record { inner = push_port b.inner p }

unfoldable pub port_with_default :
    {s : State} → To s port_end → ℕ → ℕ → Builder s → Run (Builder port_end)
unfolding optional port
port_with_default to p default b =
    let other : Option ℕ = if not (p == default) then some p else none in
    optional to to_port (λ b v. done (port to (port_u16 v) b)) other b

unfoldable pub path : {s : State} → To s path_end → Bytes → Builder s → Builder path_end
path to v b = record { inner = push_path b.inner v }

unfoldable pub query : {s : State} → To s query_end → Bytes → Builder s → Builder query_end
query to v b = record { inner = push_query b.inner v }

unfoldable pub fragment : {s : State} → To s fragment_end → Bytes → Builder s → Builder fragment_end
fragment to v b = record { inner = push_fragment b.inner v }

unfoldable pub build : {s : State} → To s end_of → Builder s → Run Built
build to b = build_inner b.inner
