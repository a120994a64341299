-- ===== src/Scope/Tests.antt =====
-- Runs of scope.rs on concrete requests, and its theorems at inputs that meet their hypotheses.
use grokingclawid.Common.{
  List, Option, Text, [], any, arith, ascii, before, contains, ends_with, none, refl, some, suc,
  text_eq, zero, ℕ, ◌↔◌, ◌∷◌, ◌≡◌, ◌≢◌, ◌≤◌, ◌⊎◌,
}
use grokingclawid.Scope.{
  ScopeConfig, allow, check_connect, check_rate_limit, check_url, deny_domain, deny_rate_limit,
  domain_allowed, evict, extract_domain, new,
}
use grokingclawid.Scope.Window.{Call, admitted, admitted_window, connect, count_in, handle, plain}
use grokingclawid.Scope.Refinement.{admitted-eq-sliding_window, sliding_window}
use grokingclawid.Scope.Domains.{Covered, connect-allow_iff, handle-ne-panic, url-allow_iff}

-- A URL parser for `https://host/path`, which stands for `Url::parse`.
abbrev after_scheme : ℕ → Text → Text
after_scheme zero url = before b'/' url
after_scheme (suc n) [] = []
after_scheme (suc n) (c ∷ url) = after_scheme n url

abbrev https : Text → Option (Option Text)
https url = some (some (after_scheme 8 url))

abbrev openai : ScopeConfig
openai = record {
  allowed_domains = ascii "openai.com" ∷ [];
  max_requests_per_minute = 0;
  request_timestamps = [];
}

scope_runs :
    ((check_url https openai 5 (ascii "https://api.openai.com/v1")).0 ≡ some allow)
    × ((check_url https openai 5 (ascii "https://evil.com/steal")).0
        ≡ some (deny_domain (ascii "evil.com") (ascii "openai.com" ∷ [])))
    × ((check_connect openai 5 (ascii "openai.com:443")).0 ≡ some allow)
    × ((check_connect openai 5 (ascii "xopenai.com:443")).0
        ≡ some (deny_domain (ascii "xopenai.com") (ascii "openai.com" ∷ [])))
unfolding check_url check_connect check_rate_limit extract_domain before domain_allowed contains any
    ends_with text_eq
scope_runs = (refl, refl, refl, refl)

-- Two requests a minute: the third is refused, and a minute after the first one passes again.
abbrev calls : List (ℕ × Call)
calls =
    (1_000_000_000, plain (ascii "https://a.com/"))
    ∷ (2_000_000_000, connect (ascii "b.com:443"))
    ∷ (3_000_000_000, plain (ascii "https://c.com/"))
    ∷ (61_000_000_000, connect (ascii "d.com:443"))
    ∷ []

admitted_runs :
    admitted https (new [] 2) calls ≡ 1_000_000_000 ∷ 2_000_000_000 ∷ 61_000_000_000 ∷ []
unfolding admitted handle new check_url check_connect check_rate_limit evict extract_domain before
admitted_runs = refl

limited_runs :
    (check_connect
      (record { allowed_domains = []; max_requests_per_minute = 1; request_timestamps = 5 ∷ [] })
      2_000_000_005
      (ascii "a.com:443")).0
    ≡ some (deny_rate_limit 1 58)
unfolding check_connect check_rate_limit evict
limited_runs = refl

admitted_window_example : count_in 0 (admitted https (new [] 2) calls) ≤ 2
admitted_window_example =
    admitted_window https [] 2 (omega arith) (omega arith) calls (omega arith) 0

admitted-eq-sliding_window_example : admitted https (new [] 2) calls ≡ sliding_window 2 [] calls
admitted-eq-sliding_window_example =
    admitted-eq-sliding_window https [] 2 (omega arith) (omega arith) calls (omega arith)

connect-allow_iff_example : ((check_connect openai 5 (ascii "openai.com:443")).0 ≡ some allow) ↔ (
    (openai.allowed_domains ≡ [])
    ⊎ Covered openai.allowed_domains (before b':' (ascii "openai.com:443")))
unfolding check_rate_limit
connect-allow_iff_example = connect-allow_iff openai 5 (ascii "openai.com:443") refl

url-allow_iff_test : ((check_url https openai 5 (ascii "https://openai.com/")).0 ≡ some allow) ↔ (
    (openai.allowed_domains ≡ [])
    ⊎ ((extract_domain https (ascii "https://openai.com/") ≡ [])
        ⊎ Covered openai.allowed_domains (extract_domain https (ascii "https://openai.com/"))))
unfolding check_rate_limit
url-allow_iff_test = url-allow_iff https openai 5 (ascii "https://openai.com/") refl

handle-ne-panic_test : (handle https openai 5 (connect (ascii "a.com:1"))).0 ≢ none
handle-ne-panic_test = handle-ne-panic https openai 5 (connect (ascii "a.com:1"))
