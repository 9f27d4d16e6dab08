-- ===== src/Role/Timeouts.antt =====
-- The timeouts of a role, read back (readStatementTimeout, readIdleInTransactionSessionTimeout).
use yb_terraform_provider_po.Prelude.{String, false, List, [], ◌∷◌, ◌++◌, All, ◌<>◌, ◌≡◌, refl, ◌∙◌}
use yb_terraform_provider_po.Prelude.Int.{ℤ, pos, itoa, atoi}
use yb_terraform_provider_po.Prelude.Result.{ok, wrap}
use yb_terraform_provider_po.Strings.{has_prefix, trim_prefix, split, drop, append-prepend}
use yb_terraform_provider_po.Strings.Laws.{split-part}
use yb_terraform_provider_po.Strings.Decimal.{IsInt64, atoi-itoa, itoa-IsPart}
use yb_terraform_provider_po.Role.Read.{
  first_part, read_timeout, read_statement_timeout, read_idle_in_transaction_session_timeout,
}

-- a setting whose entry does not begin with the name
abbrev pub Without : String → String → Type 0
Without name config = has_prefix config name ≡ false

skip_others :
    (name : String) (before config : List String)
    → All (Without name) before
    → read_timeout name (before ++ config) ≡ read_timeout name config
unfolding read_timeout
skip_others name [] config h = refl
skip_others name (b ∷ before) config (h, hs) = rw (h, skip_others name before config hs) refl

not_set :
    (name : String) (config : List String)
    → All (Without name) config
    → read_timeout name config ≡ ok (pos 0)
unfolding read_timeout
not_set name [] h = refl
not_set name (c ∷ config) (h, hs) = rw (h, not_set name config hs) refl

atoi_first :
    (v : ℤ)
    → IsInt64 v
    → wrap "Error reading statement_timeout: " (atoi (first_part (split (itoa v) ", "))) ≡ ok v
atoi_first v h = rw (split-part (itoa v) (itoa-IsPart v), atoi-itoa v h) refl

-- A role's statement timeout in the range of an int64 is read back from its entry in the role's
-- settings, as long as no setting before it begins with "statement_timeout"; and settings of which
-- none begins so have timeout 0. The same for the timeout of an idle transaction and its name.
pub read_timeout-itoa :
    (v : ℤ) (before before_idle after : List String)
    → IsInt64 v
    → All (Without "statement_timeout") before
    → All (Without "idle_in_transaction_session_timeout") before_idle
    → ((read_statement_timeout (before ++ (("statement_timeout=" <> itoa v) ∷ after)) ≡ ok v)
        × (read_statement_timeout before ≡ ok (pos 0)))
      × (read_idle_in_transaction_session_timeout
            (before_idle ++ (("idle_in_transaction_session_timeout=" <> itoa v) ∷ after))
          ≡ ok v)
      × (read_idle_in_transaction_session_timeout before_idle ≡ ok (pos 0))
unfolding read_statement_timeout read_idle_in_transaction_session_timeout read_timeout has_prefix
    trim_prefix drop
read_timeout-itoa v before before_idle after h o i = (
  (
    skip_others "statement_timeout" before _ o
        ∙ (rw (append-prepend "statement_timeout=") (atoi_first v h)),
    not_set "statement_timeout" before o,
  ),
  skip_others "idle_in_transaction_session_timeout" before_idle _ i
      ∙ (rw (append-prepend "idle_in_transaction_session_timeout=") (atoi_first v h)),
  not_set "idle_in_transaction_session_timeout" before_idle i,
)
