-- ===== src/Tests/Service.antt =====
-- A burst of requests against a limit of two, and a block of code with a string and a comment.
use cgraph.Prelude.{ℕ, ◌-◌, ◌≤◌, ◌≡◌, refl, true, false, some, List, [], ◌∷◌, ◌++◌, length}
use cgraph.Text.{Text, codes, split, strip, before_first}
use cgraph.Text.Number.{pos, negsuc}
use cgraph.Text.Chunks.{chunk_text}
use cgraph.Braces.{extract_brace_block, scan, turn}
use cgraph.Braces.Grammar.{
  Source, end, plain, string, line, braces, render, is_valid, extract_brace_block-render,
}
use cgraph.RateLimit.{
  Config, Request, Server, no_fault, after_script, client_id, client_is_trusted_proxy,
}
use cgraph.RateLimit.Window.{passed, passed_bounds}

abbrev body : Source
body = string 39 (codes "}") (line (codes " }") (braces (plain 120 end) (plain 32 end)))

abbrev post : Text
post = codes "; }"

extract_brace_block-render_example :
    extract_brace_block (codes "f " ++ render (braces body end) post) 2
    ≡ some (2, length (codes "f " ++ render (braces body end) post) - 3)
unfolding is_valid
extract_brace_block-render_example = extract_brace_block-render (codes "f ") body post refl

block_found : extract_brace_block (codes "a{'}'}}") 1 ≡ some (1, 6)
unfolding extract_brace_block scan turn
block_found = refl

abbrev config : Config
config = record {
  rate_limit_enabled = true;
  rate_limit_requests_per_minute = 2;
  trusted_proxy_cidrs = codes " 1.0.0.0/8, ::1";
  ip_address = λ s. some (length s);
  ip_network = λ s. some (length s);
  in_network = λ n ip. true;
}

abbrev from : ℕ → Request
from now = record {
  now = now;
  client_host = codes "1.2.3.4";
  forwarded_for = some (codes " 9.9.9.9, 1.1.1.1");
  fault = no_fault;
}

abbrev idle : Server
idle = record { counters = []; script_loaded = false; sha_known = true }

abbrev burst : List Request
burst = from 100 ∷ from 101 ∷ record (from 102) { fault = after_script } ∷ from 103 ∷ []

forwarded_client : client_id config (from 1) ≡ codes "9.9.9.9"
unfolding client_id client_is_trusted_proxy split strip before_first
forwarded_client = refl

passed_bounds_example : passed config (codes "stubgraph:rl:9.9.9.9") burst idle ≤ 2
passed_bounds_example =
    passed_bounds config (codes "stubgraph:rl:9.9.9.9") burst idle 100 refl refl refl

chunks : chunk_text (codes "abcde") (pos 3) (negsuc 4) ≡ codes "abc" ∷ codes "de" ∷ []
unfolding chunk_text
chunks = refl
