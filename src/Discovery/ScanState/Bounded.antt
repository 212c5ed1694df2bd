-- ===== src/Discovery/ScanState/Bounded.antt =====
-- internal/discovery/discovery.go: how long the log gets, and how many full scans run at once.
use homelab_homepage.Prelude.{
  ℕ, zero, suc, ◌-◌, ◌≤◌, String, ◌<>◌, List, [], ◌∷◌, ◌++◌, ltb, if◌then◌else◌, length,
  length-append, ◌≡◌, refl, arith, inl, inr, Bool-cases, ap,
}
use homelab_homepage.Discovery.ScanState.{Scanner, new, drop, logf, scan_now, end_scan}

length-drop : (n : ℕ) (xs : List String) → length (drop n xs) ≡ length xs - n
length-drop zero xs = omega arith
length-drop (suc n) [] = omega arith
length-drop (suc n) (x ∷ xs) = omega (arith, length-drop n xs)

drop-append : (n : ℕ) (xs ys : List String) → n ≤ length xs → drop n (xs ++ ys) ≡ drop n xs ++ ys
drop-append zero xs ys h = refl
drop-append (suc n) [] ys h = absurd (omega (arith, h))
drop-append (suc n) (x ∷ xs) ys h = drop-append n xs ys (omega (arith, h))

-- What is kept of the log before a new line.
abbrev pub kept : List String → List String
kept lines = if ltb (length lines) 400 then lines else drop (length lines - 199) lines

-- A new line is the last of the log; the lines before it are the old ones, or their last 199 once
-- there are 400; and a log of at most 400 lines stays one.
pub logf_lem :
    (ts msg : String) (d : Scanner)
    → ((logf ts msg d).log_lines ≡ kept d.log_lines ++ (ts <> (" " <> msg)) ∷ [])
      × (length d.log_lines ≤ 400 → length (logf ts msg d).log_lines ≤ 400)
unfolding logf
logf_lem ts msg d =
    let line = ts <> (" " <> msg) in
    let size = length-append d.log_lines (line ∷ []) in
    elim (Bool-cases (ltb (length d.log_lines) 400)) [
      | inl e ↦ (ground (arith, e, size), λ h. ground (arith, e, size))
      | inr e ↦
          let cut : length (d.log_lines ++ line ∷ []) - 200 ≡ length d.log_lines - 199 =
            ground (arith, size, e) in
          let left =
            drop-append (length d.log_lines - 199) d.log_lines (line ∷ []) (ground arith) in
          (
            ground (arith, e, size, ap (λ n. drop n (d.log_lines ++ line ∷ [])) cut, left),
            λ h. ground (
              arith,
              e,
              size,
              length-drop (length (d.log_lines ++ line ∷ []) - 200) (d.log_lines ++ line ∷ []),
            ),
          )
    ]

-- Requests for a scan, and ends of scans that run.
pub data ScanEvent : Type 0 where
  requested : ScanEvent
  finished : ℕ → ScanEvent

-- An end of a scan happens only while one runs.
abbrev pub scan_step : ScanEvent → Scanner → Scanner
scan_step requested d = scan_now d
scan_step (finished now) d = if ltb 0 d.running then end_scan now d else d

unfoldable pub scan_run : List ScanEvent → Scanner → Scanner
scan_run [] d = d
scan_run (e ∷ es) d = scan_run es (scan_step e d)

-- The flag says whether the one scan runs.
abbrev IsCounted : Scanner → Type 0
IsCounted d = d.running ≡ (if d.scanning then 1 else 0)

scan_step-IsCounted : (e : ScanEvent) (d : Scanner) → IsCounted d → IsCounted (scan_step e d)
unfolding scan_now end_scan
scan_step-IsCounted requested d h = ground (arith, h)
scan_step-IsCounted (finished now) d h = ground (arith, h)

scan_run-IsCounted : (es : List ScanEvent) (d : Scanner) → IsCounted d → IsCounted (scan_run es d)
unfolding scan_run
scan_run-IsCounted [] d h = h
scan_run-IsCounted (e ∷ es) d h = scan_run-IsCounted es (scan_step e d) (scan_step-IsCounted e d h)

pub scan_run-new :
    (es : List ScanEvent)
    → (scan_run es new).running ≡ (if (scan_run es new).scanning then 1 else 0)
scan_run-new es = scan_run-IsCounted es new refl
