-- ===== src/Tests/Posted.antt =====
-- Instances about the writer.
use dd_opentracing_cpp.Prelude.{
  Option, none, some, Text, codes, ℕ, ◌≤◌, ◌≡◌, refl, true, false, List, [], ◌∷◌, length, replicate,
}
use dd_opentracing_cpp.AgentWriter.{
  AgentWriter, make_writer, stop, flush, flush_done, stopped, Event, writes, wakes, retries,
  post_ends, happen_all, happen, write, retry, post_returns, wake_in, wake,
}
use dd_opentracing_cpp.AgentWriter.Handle.{
  Setting, url_option, unix_socket_path, post_fields, timeout_ms, post_field_size, Handle,
  set_up_handle,
}
use dd_opentracing_cpp.AgentWriter.Handle.Ready.{Options, Succeeds, IsReady, set_up_handle-IsReady}
use dd_opentracing_cpp.AgentWriter.Queued.{all_traces, happen_all-all_traces}
use dd_opentracing_cpp.AgentWriter.Retried.{AllPosted, happen_all-bounded}
use dd_opentracing_cpp.AgentWriter.Ending.{last_events, happen_all-stopped, flush_done-wakes}

abbrev small : AgentWriter ℕ
unfolding make_writer
small = make_writer 2 (500 ∷ 2500 ∷ [])

-- The third trace finds the queue full; the first post fails.
abbrev busy : List (Event ℕ)
busy =
    writes 11
    ∷ writes 12
    ∷ writes 13
    ∷ wakes
    ∷ post_ends false
    ∷ retries
    ∷ writes 14
    ∷ post_ends true
    ∷ []

happen_all-all_traces_example : all_traces (happen_all busy small) ≡ 11 ∷ 12 ∷ 14 ∷ []
unfolding happen_all small happen write retry post_returns wake_in wake
happen_all-all_traces_example = happen_all-all_traces busy small

happen_all-bounded_example :
    (length (happen_all busy (make_writer 2 (500 ∷ 2500 ∷ []))).traces ≤ 2)
    × AllPosted 3 (happen_all busy (make_writer 2 (500 ∷ 2500 ∷ []))).batches
happen_all-bounded_example = happen_all-bounded 2 (500 ∷ 2500 ∷ []) busy

happen_all-stopped_example :
    (happen_all (last_events false) (stop (happen_all (writes 11 ∷ wakes ∷ []) small))).worker
    ≡ stopped
happen_all-stopped_example = happen_all-stopped false (happen_all (writes 11 ∷ wakes ∷ []) small)

flush_done-wakes_example : flush_done (happen_all (replicate 3 wakes) (flush small)) ≡ false
unfolding small make_writer
flush_done-wakes_example = flush_done-wakes 3 small refl refl refl

-- The options of a handle.
record Curl : Type 0 where
  url : Option Text
  socket : Option Text
  timeout : Option ℕ
  body : Text
  body_size : ℕ

abbrev set_option : Setting → Curl → Curl × Option ℕ
set_option (url_option t) h = (record h { url = some t }, none)
set_option (unix_socket_path t) h = (record h { socket = some t }, none)
set_option (post_fields t) h = (record h { body = t }, none)
set_option (timeout_ms n) h = (record h { timeout = some n }, none)
set_option (post_field_size n) h = (record h { body_size = n }, none)

abbrev curl : Handle Curl ℕ
curl = record { setopt = set_option; set_headers = λ headers h. h; perform = λ h. (h, none) }

abbrev curl_options : Options curl
curl_options = record {
  url_of = λ h. h.url;
  socket_of = λ h. h.socket;
  timeout_of = λ h. h.timeout;
  sets_url = λ h url ok. (refl, refl);
  sets_socket = λ h path ok. refl;
  sets_timeout = λ h ms ok. (refl, refl, refl);
}

abbrev new_curl : Curl
new_curl = record { url = none; socket = none; timeout = none; body = []; body_size = 0 }

set_up_handle-IsReady_example :
    Succeeds curl
      (IsReady curl curl_options (codes "localhost") 8126 (codes "unix:///run/agent.sock") none)
      (set_up_handle curl (codes "localhost") 8126 (codes "unix:///run/agent.sock") new_curl)
set_up_handle-IsReady_example =
    set_up_handle-IsReady curl curl_options (codes "localhost") 8126
      (codes "unix:///run/agent.sock") new_curl
