-- ===== src/AgentWriter/Handle.antt =====
-- What src/agent_writer.cpp does with the handle of src/transport.h, an interface over libcurl:
-- `setUpHandle` and `postTraces`. A handle is a parameter; a `CURLcode` other than `CURLE_OK` is an
-- error. The error messages are not modelled, nor is `std::bad_alloc`.
pub mod Ready
use dd_opentracing_cpp.Prelude.{
  ℕ, Bool, true, false, ◌||◌, Option, none, some, List, [], ◌∷◌, ◌++◌, Text, codes, is_empty,
  if◌then◌else◌, text_eq, same, length, take, drop,
}
use dd_opentracing_cpp.Integers.{to_text}
use dd_opentracing_cpp.Tags.{TagMap}
use dd_opentracing_cpp.Encoder.{agent_api_path}

-- The options that are set, and their values.
pub data Setting : Type 0 where
  url_option unix_socket_path post_fields : Text → Setting
  timeout_ms post_field_size : ℕ → Setting

pub record Handle (H C : Type 0) : Type 0 where
  pub setopt : Setting → H → H × Option C
  pub set_headers : TagMap → H → H
  pub perform : H → H × Option C

-- The `runtime_error`s of `setUpHandle`.
pub data SetUpError (C : Type 0) : Type 0 where
  unable_to_set : C → SetUpError C
  unknown_url_scheme : Text → SetUpError C

-- `agent_protocol`, followed by the host, the port and the path.
abbrev pub default_agent_uri : Text → ℕ → Text
default_agent_uri host port =
    codes "http://" ++ (host ++ (codes ":" ++ (to_text 10 port ++ agent_api_path)))

-- `url.substr(0, scheme.size()) == scheme`.
abbrev pub has_scheme : Text → Text → Bool
has_scheme scheme url = same (take (length scheme) url) scheme

unfoldable pub is_http : Text → Bool
is_http url = has_scheme (codes "http://") url || has_scheme (codes "https://") url

unfoldable pub is_unix : Text → Bool
is_unix url = has_scheme (codes "unix://") url

unfoldable pub is_path : Text → Bool
is_path url = has_scheme (codes "/") url

module _ {H C : Type 0} (handle : Handle H C) where
  -- A part of `setUpHandle`: what it does to the handle, and what it throws.
  abbrev pub Action : Type 0
  Action = H → H × Option (SetUpError C)

  abbrev pub continued : Action → H × Option (SetUpError C) → H × Option (SetUpError C)
  continued g (h, none) = g h
  continued g (h, some error) = (h, some error)

  abbrev pub and_then : Action → Action → Action
  and_then f g h = continued g (f h)

  abbrev pub nothing : Action
  nothing h = (h, none)

  abbrev pub thrown : H × Option C → H × Option (SetUpError C)
  thrown (h, none) = (h, none)
  thrown (h, some rcode) = (h, some (unable_to_set rcode))

  abbrev pub set : Setting → Action
  set setting h = thrown (handle.setopt setting h)

  -- The part under `if (!url.empty())`.
  unfoldable pub set_address : Text → Action
  set_address url h =
      if is_empty url
      then nothing h
      else if is_http url
      then set (url_option (url ++ agent_api_path)) h
      else if is_unix url
      then set (unix_socket_path (drop 7 url)) h
      else if is_path url
      then set (unix_socket_path url) h
      else (h, some (unknown_url_scheme url))

  -- Whether that part sets `urlopt_set`.
  abbrev pub urlopt_set : Text → Bool
  urlopt_set url = if is_empty url then false else is_http url

  -- `setUpHandle`.
  unfoldable pub set_up_handle : Text → ℕ → Text → Action
  unfolding set_address
  set_up_handle host port url =
      let set_default : Action = set (url_option (default_agent_uri host port)) in
      and_then (set_address url)
        (and_then (if urlopt_set url then nothing else set_default) (set (timeout_ms 2000)))

  -- `if (rcode != CURLE_OK) return false;`.
  abbrev pub if_ok : (H → H × Bool) → H × Option C → H × Bool
  if_ok g (h, none) = g h
  if_ok g (h, some rcode) = (h, false)

  -- `postTraces`.
  unfoldable pub post_traces : TagMap → Text → H → H × Bool
  post_traces headers payload h =
      if_ok
        (λ h1.
          if_ok (λ h2. if_ok (λ h3. (h3, true)) (handle.perform h2))
            (handle.setopt (post_fields payload) h1))
        (handle.setopt (post_field_size (length payload)) (handle.set_headers headers h))
