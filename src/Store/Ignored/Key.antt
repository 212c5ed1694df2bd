-- ===== src/Store/Ignored/Key.antt =====
-- internal/store/store.go: the key "ip:port" and the addresses that have it.
use homelab_homepage.Prelude.{ℕ, String, ◌≡◌, ◌≤◌, refl, some, arith, pos, sym, ◌∙◌, ap}
use text.Mathlib.TextLemmas.{cons-append, nil-append}
use homelab_homepage.Go.Text.{cut_last, cut_last-append}
use homelab_homepage.Go.Number.{itoa, atoi-itoa, itoa-no_colon, max_int}
use homelab_homepage.Store.Ignored.{ignored_key}

cut_last-ignored_key :
    (ip : String) (n : ℕ) → cut_last b':' (ignored_key ip (pos n)) ≡ some (ip, itoa (pos n))
unfolding ignored_key
cut_last-ignored_key ip n =
    rw (cons-append, nil-append) (cut_last-append b':' ip ":" (itoa (pos n)) refl (itoa-no_colon n))

-- Two addresses with ports in the range of `int` have one key only if they are one.
pub ignored_key-injective :
    (ip ip' : String) (n m : ℕ)
    → n ≤ max_int
    → m ≤ max_int
    → ignored_key ip (pos n) ≡ ignored_key ip' (pos m)
    → (ip ≡ ip') × (n ≡ m)
ignored_key-injective ip ip' n m hn hm e =
    let cuts : some (ip, itoa (pos n)) ≡ some (ip', itoa (pos m)) =
      sym (cut_last-ignored_key ip n) ∙ ap (cut_last b':') e ∙ cut_last-ignored_key ip' m in
    ground (arith, cuts, atoi-itoa n hn, atoi-itoa m hm)
