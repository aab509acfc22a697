-- ===== src/Companion/Operations.antt =====
-- internal/companion/companion.go: `executeOperation` and what its commands print. The command runner
-- is a parameter; `strings.TrimSpace` is written for the ASCII white space that the scripts print.
use remote_davinci.Base.{
  ℕ, ◌*◌, String, Bool, true, false, ◌&&◌, ◌||◌, not, Option, none, some, List, [], ◌∷◌,
  if◌then◌else◌, leb, ◌==◌, codes, lookup, str_eq, min, length,
}
use remote_davinci.Protocol.Base64.{bytes_eq}
use remote_davinci.Protocol.Json.{parse_int}
use remote_davinci.Companion.Outcome.{
  message, operation_error, Outcome, returned, failed, present, check, ◌>>=◌, ◌>>◌,
}

-- The pages of `resolvePageForOperation`: the operation without its prefix "resolve.page.".
abbrev pub page_operations : List (String × String)
page_operations =
    ("resolve.page.media", "media")
    ∷ ("resolve.page.cut", "cut")
    ∷ ("resolve.page.edit", "edit")
    ∷ ("resolve.page.fusion", "fusion")
    ∷ ("resolve.page.color", "color")
    ∷ ("resolve.page.fairlight", "fairlight")
    ∷ ("resolve.page.deliver", "deliver")
    ∷ []

unfoldable pub resolve_page_for_operation : String → Option String
resolve_page_for_operation operation = lookup operation page_operations

-- The result of an operation: the maps {"page": …} and {"muted": …}.
pub data OperationResult : Type 0 where
  page : String → OperationResult
  muted : Bool → OperationResult

abbrev pub is_space : ℕ → Bool
is_space c = c == 32 || leb 9 c && leb c 13

unfoldable pub trim_left : List ℕ → List ℕ
trim_left [] = []
trim_left (c ∷ cs) = let rest = trim_left cs in if is_space c then rest else c ∷ cs

unfoldable pub trim_right : List ℕ → List ℕ
trim_right [] = []
trim_right (c ∷ cs) = elim (trim_right cs) [
  | [] ↦ if is_space c then [] else c ∷ []
  | d ∷ ds ↦ c ∷ d ∷ ds
]

abbrev pub trim_space : List ℕ → List ℕ
trim_space s = trim_right (trim_left s)

-- companion.go: `parseMuteResult`, on the output of the command or its error.
unfoldable pub parse_mute_result : Option (List ℕ) → Outcome OperationResult
parse_mute_result none = failed (operation_error "host.control-failed")
parse_mute_result (some output) =
    let printed = trim_space output in
    if bytes_eq printed (codes "unsupported")
    then failed (operation_error "host.mute-unsupported")
    else if bytes_eq printed (codes "true")
    then returned (muted true)
    else if bytes_eq printed (codes "false")
    then returned (muted false)
    else failed (operation_error "host.control-failed")

-- The commands that are run: the page script with its argument, and the mute script.
pub data Command : Type 0 where
  open_page : String → Command
  toggle_mute : Command

unfoldable pub page_result : String → Option (List ℕ) → Outcome OperationResult
page_result requested none = failed (operation_error "resolve.unavailable")
page_result requested (some readback) =
    if bytes_eq (trim_space readback) (codes requested)
    then returned (page requested)
    else failed (operation_error "resolve.unavailable")

-- companion.go: `executeOperation`. `output` runs a command in the state `s` of the computer.
unfoldable pub execute_operation {ℓ} :
    {S : Type ℓ} (output : S → Command → S × Option (List ℕ))
    → S
    → String
    → S × Outcome OperationResult
execute_operation output s operation = elim (resolve_page_for_operation operation) [
  | some requested ↦
      let (after, readback) = output s (open_page requested) in
      (after, page_result requested readback)
  | none ↦
      let (after, printed) = output s toggle_mute in
      if str_eq operation "host.volume.toggle-mute"
      then (after, parse_mute_result printed)
      else (s, failed (operation_error "operation.unsupported"))
]

-- companion.go: `resolvePageMonitorRetryDelay`, in seconds.
unfoldable pub resolve_page_monitor_retry_delay : ℕ → Bool → ℕ
resolve_page_monitor_retry_delay previous observed =
    if observed || previous == 0 then 1 else min (previous * 2) 900

pub record ResolvePageObservation : Type 0 where
  pub page : List ℕ
  pub observed_at : ℕ

-- The line up to the first tab and what stands after it.
unfoldable pub split_tab : List ℕ → Option (List ℕ × List ℕ)
split_tab [] = none
split_tab (c ∷ cs) =
    let rest = split_tab cs in
    if c == 9
    then some ([], cs)
    else elim rest [ none ↦ none | some (before, after) ↦ some (c ∷ before, after) ]

-- companion.go: `parseResolvePageObservation`.
unfoldable pub parse_resolve_page_observation : List ℕ → Outcome ResolvePageObservation
parse_resolve_page_observation line =
    let invalid = message "invalid Resolve page observation" in
    do
      (before, after) ← present (split_tab line) invalid
      (negative, nanoseconds) ← present (parse_int before) invalid
      check (not negative && not (nanoseconds == 0) && not (length (trim_space after) == 0)) invalid
      returned (record { page = trim_space after; observed_at = nanoseconds })
