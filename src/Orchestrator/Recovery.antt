-- ===== src/Orchestrator/Recovery.antt =====
-- internal/orchestrator/recovery.go: the retry policy of the engine, and the shortening of errors.
-- An error text is the list of its bytes there, since the code cuts it by byte positions.
use primitive_box.Prelude.{
  ℕ, ◌+◌, ◌-◌, ◌/◌, ◌≤◌, ◌<◌, ◌≡◌, ◌↔◌, ◌⊎◌, Bool, true, false, List, [], ◌∷◌, ◌++◌, leb, length,
  take, drop, length-append, length-take, length-drop, codes, arith, if◌then◌else◌,
}
use primitive_box.Orchestrator.{FailureKind, RecoveryAction, retry, pause}

abbrev pub is_duplicate : FailureKind → Bool
is_duplicate FailureKind.duplicate = true
is_duplicate _ = false

unfoldable pub decide : FailureKind → ℕ → ℕ → RecoveryAction
decide kind attempt max_retries =
    if is_duplicate kind then pause else if leb max_retries attempt then pause else retry

-- The policy retries exactly failures that are no duplicates, below the retry limit, and pauses
-- otherwise.
pub decide_exact :
    (kind : FailureKind) (attempt max_retries : ℕ)
    → ((decide kind attempt max_retries ≡ retry)
        ↔ ((is_duplicate kind ≡ false) × (attempt < max_retries)))
      × ((decide kind attempt max_retries ≡ pause)
          ↔ ((is_duplicate kind ≡ true) ⊎ (max_retries ≤ attempt)))
unfolding decide
decide_exact kind attempt max_retries = ground arith

abbrev pub truncation_mark : List ℕ
truncation_mark = 10 ∷ codes "... [error truncated to prevent context overflow] ..." ++ 10 ∷ []

unfoldable pub truncate_error_for_llm : List ℕ → ℕ → List ℕ
truncate_error_for_llm error_msg max_len =
    if leb (length error_msg) max_len
    then error_msg
    else let keep_len = max_len / 2 in
      take keep_len error_msg ++ (truncation_mark ++ drop (length error_msg - keep_len) error_msg)

length-cut :
    (msg mark : List ℕ) (k : ℕ)
    → k ≤ length msg
    → length (take k msg ++ (mark ++ drop (length msg - k) msg)) ≡ k + k + length mark
length-cut msg mark k h = omega (
  arith,
  length-append (take k msg) (mark ++ drop (length msg - k) msg),
  length-append mark (drop (length msg - k) msg),
  length-take k msg,
  length-drop (length msg - k) msg,
)

-- A message within the limit is kept, and a longer one is cut to two pieces of `max_len / 2` bytes
-- around the mark, so that the result exceeds the limit by at most the length of the mark.
pub truncate_error_for_llm-length :
    (msg : List ℕ) (max_len : ℕ)
    → ((truncate_error_for_llm msg max_len ≡ msg)
        ⊎ ((max_len < length msg)
            × (length (truncate_error_for_llm msg max_len)
                ≡ max_len / 2 + max_len / 2 + length truncation_mark)))
      × (length (truncate_error_for_llm msg max_len) ≤ max_len + length truncation_mark)
unfolding truncate_error_for_llm
truncate_error_for_llm-length msg max_len =
    ground (arith, length-cut msg truncation_mark (max_len / 2))
