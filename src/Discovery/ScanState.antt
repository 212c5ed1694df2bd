-- ===== src/Discovery/ScanState.antt =====
-- internal/discovery/discovery.go: the log of the scans, and the flag of a running scan.
pub mod Bounded
use homelab_homepage.Prelude.{
  ℕ, zero, suc, ◌-◌, ◌+◌, String, ◌<>◌, Bool, true, false, Option, none, some, List, [], ◌∷◌, ◌++◌,
  ltb, if◌then◌else◌, length,
}

abbrev pub drop {ℓ} : {A : Type ℓ} → ℕ → List A → List A
drop zero xs = xs
drop (suc n) [] = []
drop (suc n) (x ∷ xs) = drop n xs

-- `running` is the number of goroutines in `runScan`.
pub record Scanner : Type 0 where
  pub scanning : Bool
  pub last_scan : ℕ
  pub next_scan : ℕ
  pub log_lines : List String
  pub running : ℕ

abbrev pub new : Scanner
new = record { scanning = false; last_scan = 0; next_scan = 0; log_lines = []; running = 0 }

abbrev pub trimmed : List String → List String
trimmed lines = if ltb 400 (length lines) then drop (length lines - 200) lines else lines

-- `logf`, of a message and the time of day.
unfoldable pub logf : String → String → Scanner → Scanner
logf ts msg d = record d { log_lines = trimmed (d.log_lines ++ (ts <> (" " <> msg)) ∷ []) }

unfoldable pub scan_now : Scanner → Scanner
scan_now d = if d.scanning then d else record d { scanning = true; running = d.running + 1 }

-- The end of `runScan`, at the time `now`.
unfoldable pub end_scan : ℕ → Scanner → Scanner
end_scan now d = record d { scanning = false; last_scan = now; running = d.running - 1 }
