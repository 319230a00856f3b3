-- ===== src/Filters/Plumbing.antt =====
-- `FilterPlumbing` of indexer/filters/plumbing.go. Each filter is one goroutine that reads a queue
-- and writes to the queue of the filter after it, so a run is a function of the tokens read.
pub mod Chain
use irengine.Common.{ℕ, if◌then◌else◌, Bool, true, false, not, ◌&&◌, List, [], ◌∷◌, ◌++◌, Text}
use irengine.FileReader.Token.{Token, null_token, symbol_token, type_eq}

-- What a filter adds to the plumbing. `notify_doc_complete` gives what it sends by itself.
pub record Filter : Type 1 where
  pub State : Type 0
  pub id : Text
  pub ignores_final : Bool
  pub apply : State → Token → State × List Token
  pub notify_doc_complete : State → State × List Token

-- A goroutine between two queues.
pub record Stage : Type 1 where
  pub State : Type 0
  pub receive : State → Token → State × List Token

-- `Send` and `SendAll` of a round of `apply`, for a filter with one output.
unfoldable pub receive : (f : Filter) → f.State → Token → f.State × List Token
receive f s tok =
    if type_eq tok.type symbol_token
    then (s, [])
    else if type_eq tok.type null_token
    then (let (s', sent) = f.notify_doc_complete s in (s', sent ++ tok ∷ []))
    else if tok.final && not f.ignores_final
    then (s, tok ∷ [])
    else f.apply s tok

unfoldable pub stage : Filter → Stage
stage f = record { State = f.State; receive = receive f }

-- The loop of `apply` over the tokens of its input.
unfoldable pub run : (a : Stage) → a.State → List Token → a.State × List Token
run a s [] = (s, [])
run a s (tok ∷ toks) =
    let (s', out) = a.receive s tok in let (s'', rest) = run a s' toks in (s'', out ++ rest)

-- Two goroutines in a row: the second one reads what the first one sends.
unfoldable pub piped : Stage → Stage → Stage
piped a b = record {
  State = a.State × b.State;
  receive = λ (s, t) tok.
      let (s', mid) = a.receive s tok in let (t', out) = run b t mid in ((s', t'), out);
}
