-- ===== src/AgentWriter/Handle/Ready.antt =====
-- What a handle is set to when `setUpHandle` of src/agent_writer.cpp succeeds.
use mathlib.Core.Bool.{false≢true}
use mathlib.Core.Path.{subst, ap₂}
use dd_opentracing_cpp.Integers.{to_text}
use dd_opentracing_cpp.Prelude.{
  ◌&&◌, ◌||◌, not, ◌==◌, same, text_eq, codes, take, arith, [], ◌∷◌, length, ℕ, ◌≡◌, refl, ◌∙◌,
  Bool, true, false, Option, none, some, ◌++◌, Text, is_empty, if◌then◌else◌, drop,
}
use dd_opentracing_cpp.Encoder.{agent_api_path}
use dd_opentracing_cpp.AgentWriter.Handle.{
  url_option, unix_socket_path, timeout_ms, Handle, SetUpError, unknown_url_scheme,
  default_agent_uri, is_http, is_unix, is_path, Action, continued, and_then, nothing, thrown, set,
  set_address, urlopt_set, set_up_handle,
}

-- The text starts with the other.
abbrev pub starts_with : Text → Text → Bool
starts_with [] text = true
starts_with (c ∷ start) [] = false
starts_with (c ∷ start) (x ∷ text) = (x == c) && starts_with start text

abbrev pub starts_http : Text → Bool
starts_http url = starts_with (codes "http://") url || starts_with (codes "https://") url

-- The URL that requests go to, for the options of the tracer.
abbrev pub expected_uri : Text → ℕ → Text → Text
expected_uri host port url =
    if is_empty url || not (starts_http url)
    then codes "http://" ++ (host ++ (codes ":" ++ (to_text 10 port ++ codes "/v0.4/traces")))
    else url ++ codes "/v0.4/traces"

-- The socket that connections are made through, where the URL names one.
abbrev pub expected_socket : Text → Option Text → Option Text
expected_socket url old =
    if is_empty url || starts_http url
    then old
    else if starts_with (codes "unix://") url
    then some (drop 7 url)
    else some url

starts_with-take :
    (start text : Text) → same (take (length start) text) start ≡ starts_with start text
starts_with-take [] text = refl
starts_with-take (c ∷ start) [] = refl
starts_with-take (c ∷ start) (x ∷ text) = ground (arith, starts_with-take start text)

is_http-starts_http : (url : Text) → is_http url ≡ starts_http url
unfolding is_http
is_http-starts_http url =
    ap₂ (λ a b. a || b) (starts_with-take (codes "http://") url)
      (starts_with-take (codes "https://") url)

is_unix-starts_with : (url : Text) → is_unix url ≡ starts_with (codes "unix://") url
unfolding is_unix
is_unix-starts_with url = starts_with-take (codes "unix://") url

-- The options of a handle, and what `curl_easy_setopt` promises: a call that succeeds sets its
-- option, and leaves the others.
pub record Options {H C : Type 0} (handle : Handle H C) : Type 0 where
  pub url_of : H → Option Text
  pub socket_of : H → Option Text
  pub timeout_of : H → Option ℕ
  pub sets_url :
      (h : H) (url : Text)
      → (handle.setopt (url_option url) h).1 ≡ none
      → (url_of (handle.setopt (url_option url) h).0 ≡ some url)
        × (socket_of (handle.setopt (url_option url) h).0 ≡ socket_of h)
  pub sets_socket :
      (h : H) (path : Text)
      → (handle.setopt (unix_socket_path path) h).1 ≡ none
      → socket_of (handle.setopt (unix_socket_path path) h).0 ≡ some path
  pub sets_timeout :
      (h : H) (ms : ℕ)
      → (handle.setopt (timeout_ms ms) h).1 ≡ none
      → (timeout_of (handle.setopt (timeout_ms ms) h).0 ≡ some ms)
        × (url_of (handle.setopt (timeout_ms ms) h).0 ≡ url_of h)
        × (socket_of (handle.setopt (timeout_ms ms) h).0 ≡ socket_of h)

-- Both in terms of the tests of the source.
abbrev agent_uri : Text → ℕ → Text → Text
agent_uri host port url =
    if is_empty url
    then default_agent_uri host port
    else if is_http url
    then url ++ agent_api_path
    else default_agent_uri host port

abbrev agent_socket : Text → Option Text → Option Text
agent_socket url old =
    if is_empty url
    then old
    else if is_http url
    then old
    else if is_unix url
    then some (drop 7 url)
    else some url

expected_uri-agent_uri :
    (host : Text) (port : ℕ) (url : Text) → agent_uri host port url ≡ expected_uri host port url
expected_uri-agent_uri host port url = ground (arith, is_http-starts_http url)

expected_socket-agent_socket :
    (url : Text) (old : Option Text) → agent_socket url old ≡ expected_socket url old
expected_socket-agent_socket url old =
    ground (arith, is_http-starts_http url, is_unix-starts_with url)

module _ {H C : Type 0} (handle : Handle H C) where
  -- Of a handle after an action that does not throw.
  abbrev pub Succeeds : (H → Type 0) → H × Option (SetUpError C) → Type 0
  Succeeds Q (h, none) = Q h
  Succeeds Q (h, some error) = Unit

  abbrev Leads : (H → Type 0) → (H → Type 0) → Action handle → Type 0
  Leads P Q f = (h : H) → P h → Succeeds Q (f h)

  continued-Succeeds :
      (P Q : H → Type 0) (g : Action handle)
      → Leads P Q g
      → (r : H × Option (SetUpError C)) → Succeeds P r
      → Succeeds Q (continued handle g r)
  continued-Succeeds P Q g hg (h, none) p = hg h p
  continued-Succeeds P Q g hg (h, some error) p = tt

  thrown-Succeeds :
      (Q : H → Type 0) (r : H × Option C) → (r.1 ≡ none → Q r.0) → Succeeds Q (thrown handle r)
  thrown-Succeeds Q (h, none) q = q refl
  thrown-Succeeds Q (h, some rcode) q = tt

  module _ (o : Options handle) where
    -- What a handle is set to.
    abbrev pub HasOptions : Text → Option Text → H → Type 0
    HasOptions uri socket h =
        (o.url_of h ≡ some uri) × (o.socket_of h ≡ socket) × (o.timeout_of h ≡ some 2000)

    -- What it is set to for these options, where it had this socket.
    abbrev pub IsReady : Text → ℕ → Text → Option Text → H → Type 0
    IsReady host port url old = HasOptions (expected_uri host port url) (expected_socket url old)

    abbrev WasSet : Text → ℕ → Text → Option Text → H → Type 0
    WasSet host port url old = HasOptions (agent_uri host port url) (agent_socket url old)

    abbrev HasSocket : Text → Option Text → H → Type 0
    HasSocket url old h = o.socket_of h ≡ agent_socket url old

    abbrev HasUrl : Text → ℕ → Text → Option Text → H → Type 0
    HasUrl host port url old h = (o.url_of h ≡ some (agent_uri host port url)) × HasSocket url old h

    -- The address is set: the socket, and the URL where it is the one that is given.
    abbrev HasAddress : Text → Option Text → H → Type 0
    HasAddress url old h =
        (urlopt_set handle url ≡ true → o.url_of h ≡ some (url ++ agent_api_path))
        × HasSocket url old h

    abbrev GoesTo : Text → Option Text → H → Type 0
    GoesTo uri socket h = (o.url_of h ≡ some uri) × (o.socket_of h ≡ socket)

    sets_path :
        (url path : Text) (h : H)
        → Succeeds
            (λ h'.
              (false ≡ true → o.url_of h' ≡ some (url ++ agent_api_path))
              × (o.socket_of h' ≡ some path))
            (set handle (unix_socket_path path) h)
    sets_path url path h =
        thrown-Succeeds
          (λ h'.
            (false ≡ true → o.url_of h' ≡ some (url ++ agent_api_path))
            × (o.socket_of h' ≡ some path))
          (handle.setopt (unix_socket_path path) h)
          (λ ok. (λ c. absurd (false≢true c), o.sets_socket h path ok))

    -- `set_address`, for any outcome of its tests.
    address-Succeeds :
        (e t u p : Bool) (url : Text) (old : Option Text) (h : H)
        → o.socket_of h ≡ old
        → Succeeds
            (λ h'.
              ((if e then false else t) ≡ true → o.url_of h' ≡ some (url ++ agent_api_path))
              × (o.socket_of h' ≡ (
                  if e then old else if t then old else if u then some (drop 7 url) else some url)))
            (if e
              then nothing handle h
              else if t
              then set handle (url_option (url ++ agent_api_path)) h
              else if u
              then set handle (unix_socket_path (drop 7 url)) h
              else if p
              then set handle (unix_socket_path url) h
              else (h, some (unknown_url_scheme url)))
    address-Succeeds true t u p url old h s = (λ c. absurd (false≢true c), s)
    address-Succeeds false true u p url old h s =
        thrown-Succeeds
          (λ h'.
            (true ≡ true → o.url_of h' ≡ some (url ++ agent_api_path)) × (o.socket_of h' ≡ old))
          (handle.setopt (url_option (url ++ agent_api_path)) h)
          (λ ok. let r = o.sets_url h (url ++ agent_api_path) ok in (λ c. r.0, r.1 ∙ s))
    address-Succeeds false false true p url old h s = sets_path url (drop 7 url) h
    address-Succeeds false false false true url old h s = sets_path url url h
    address-Succeeds false false false false url old h s = tt

    sets_default :
        (host : Text) (port : ℕ) (socket : Option Text) (h : H)
        → o.socket_of h ≡ socket
        → Succeeds
            (GoesTo (default_agent_uri host port) socket)
            (set handle (url_option (default_agent_uri host port)) h)
    sets_default host port socket h s =
        let uri = default_agent_uri host port in
        thrown-Succeeds (GoesTo uri socket) (handle.setopt (url_option uri) h)
          (λ ok. let r = o.sets_url h uri ok in (r.0, r.1 ∙ s))

    -- The URL of the host and the port, unless one was given.
    default-Succeeds :
        (e t : Bool) (host : Text) (port : ℕ) (url : Text) (socket : Option Text) (h : H)
        → ((if e then false else t) ≡ true → o.url_of h ≡ some (url ++ agent_api_path))
          × (o.socket_of h ≡ socket)
        → Succeeds
            (GoesTo
              (if e
                then default_agent_uri host port
                else if t
                then url ++ agent_api_path
                else default_agent_uri host port)
              socket)
            ((if if e then false else t
                then nothing handle
                else set handle (url_option (default_agent_uri host port)))
              h)
    default-Succeeds true t host port url socket h p = sets_default host port socket h p.1
    default-Succeeds false true host port url socket h p = (p.0 refl, p.1)
    default-Succeeds false false host port url socket h p = sets_default host port socket h p.1

    timeout-Succeeds :
        (host : Text) (port : ℕ) (url : Text) (old : Option Text)
        → Leads (HasUrl host port url old) (WasSet host port url old) (set handle (timeout_ms 2000))
    timeout-Succeeds host port url old h p =
        thrown-Succeeds (WasSet host port url old) (handle.setopt (timeout_ms 2000) h)
          (λ ok. let r = o.sets_timeout h 2000 ok in (r.1 ∙ p.0, r.2 ∙ p.1, r.0))

    set_up_handle-WasSet :
        (host : Text) (port : ℕ) (url : Text) (h : H)
        → Succeeds (WasSet host port url (o.socket_of h)) (set_up_handle handle host port url h)
    unfolding set_up_handle set_address
    set_up_handle-WasSet host port url h =
        let old = o.socket_of h in
        let set_default : Action handle = set handle (url_option (default_agent_uri host port)) in
        let default_part : Action handle =
          if urlopt_set handle url then nothing handle else set_default in
        continued-Succeeds (HasAddress url old) (WasSet host port url old)
          (and_then handle default_part (set handle (timeout_ms 2000)))
          (λ h1 p1.
            continued-Succeeds (HasUrl host port url old) (WasSet host port url old)
              (set handle (timeout_ms 2000)) (timeout-Succeeds host port url old) (default_part h1)
              (default-Succeeds (is_empty url) (is_http url) host port url (agent_socket url old) h1
                p1))
          (set_address handle url h)
          (address-Succeeds (is_empty url) (is_http url) (is_unix url) (is_path url) url old h refl)

    -- When `setUpHandle` does not throw, the handle has a timeout of two seconds; its URL is the
    -- one that is given, with the path of the agent, if that has the scheme `http` or `https`, and
    -- that of the host and the port otherwise; and its socket is the path that is given, without
    -- the scheme `unix`, if the URL that is given is neither empty nor of the schemes `http` and
    -- `https`, and the one it was otherwise.
    pub set_up_handle-IsReady :
        (host : Text) (port : ℕ) (url : Text) (h : H)
        → Succeeds (IsReady host port url (o.socket_of h)) (set_up_handle handle host port url h)
    set_up_handle-IsReady host port url h =
        let r = set_up_handle handle host port url h in
        let old = o.socket_of h in
        subst (λ u. Succeeds (HasOptions u (expected_socket url old)) r)
          (expected_uri-agent_uri host port url)
          (subst (λ v. Succeeds (HasOptions (agent_uri host port url) v) r)
            (expected_socket-agent_socket url old) (set_up_handle-WasSet host port url h))
