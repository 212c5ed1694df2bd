-- ===== src/Discovery/Target/RoundTrip.antt =====
-- internal/discovery/docker.go: targets that are built and taken apart again.
use text.Mathlib.TextLemmas.{append_assoc, cons-append, nil-append}
use Prim.Native.String.{◌∷◌}
use homelab_homepage.Prelude.{
  ℕ, String, ◌<>◌, ◌≡◌, refl, false, some, ◌≤◌, pos, arith, sym, ap, ◌∙◌, ◌⊎◌, inl, inr, ℕ_discrete,
}
use homelab_homepage.Go.Text.{
  trim_prefix, cut_last, has_byte, has_byte-append, trim_prefix-append, trim_prefix-absent,
  trim_suffix-absent, cut_last-append, cut-append, strip_prefix-common, strip_prefix-differ,
}
use homelab_homepage.Go.Number.{itoa, atoi-itoa, itoa-no_colon, itoa-no_slash, max_int}
use homelab_homepage.Discovery.Target.{target_of, split_target, preserve_scheme}

-- The text after the scheme.
abbrev address : String → ℕ → String
address ip port = ip <> (":" <> itoa (pos port))

address-no_slash :
    (ip : String) (port : ℕ) → has_byte b'/' ip ≡ false → has_byte b'/' (address ip port) ≡ false
unfolding has_byte ℕ_discrete
address-no_slash ip port h =
    rw
      (
        has_byte-append b'/' ip (":" <> itoa (pos port)),
        has_byte-append b'/' ":" (itoa (pos port)),
        h,
        itoa-no_slash port,
      )
      refl

-- What is left of a target after its scheme is stripped.
without_http :
    (ip : String) (port : ℕ)
    → trim_prefix (target_of "http" ip (pos port)) "http://" ≡ address ip port
unfolding target_of
without_http ip port =
    ap (λ t. trim_prefix t "http://") (sym (append_assoc "http" "://" (address ip port)))
    ∙ trim_prefix-append "http://" (address ip port)

https_kept :
    (rest : String)
    → trim_prefix ("https" <> ("://" <> rest)) "http://" ≡ "https" <> ("://" <> rest)
unfolding trim_prefix ℕ_discrete
https_kept rest =
    rw
      (
        strip_prefix-common "h" "ttp://" "ttps" ("://" <> rest),
        strip_prefix-common "t" "tp://" "tps" ("://" <> rest),
        strip_prefix-common "t" "p://" "ps" ("://" <> rest),
        strip_prefix-common "p" "://" "s" ("://" <> rest),
        strip_prefix-differ ":" "s" "//" "" ("://" <> rest) (omega arith),
      )
      refl

-- Both schemes are stripped.
without_scheme :
    (scheme ip : String) (port : ℕ)
    → has_byte b'/' ip ≡ false
    → (scheme ≡ "http") ⊎ (scheme ≡ "https")
    → trim_prefix (trim_prefix (target_of scheme ip (pos port)) "http://") "https://"
      ≡ address ip port
unfolding target_of has_byte ℕ_discrete
without_scheme scheme ip port h (inl e) =
    rw (e, without_http ip port)
      (trim_prefix-absent b'/' "https://" (address ip port) refl (address-no_slash ip port h))
without_scheme scheme ip port h (inr e) =
    rw (e, https_kept (address ip port), sym (append_assoc "https" "://" (address ip port)))
      (trim_prefix-append "https://" (address ip port))

colon-append : (s : String) → ":" <> s ≡ ":" ∷ s
colon-append s = cons-append ":" "" s ∙ ap (λ (t : String). ":" ∷ t) (nil-append s)

cut_address :
    (ip : String) (port : ℕ) → cut_last b':' (address ip port) ≡ some (ip, itoa (pos port))
cut_address ip port =
    ap (λ t. cut_last b':' (ip <> t)) (colon-append (itoa (pos port)))
    ∙ cut_last-append b':' ip ":" (itoa (pos port)) refl (itoa-no_colon port)

-- A target that is built of the scheme http or https, an address without a slash and a port in the
-- range of int is split into the address and the port again.
pub split_target-target_of :
    (scheme ip : String) (port : ℕ)
    → (scheme ≡ "http") ⊎ (scheme ≡ "https")
    → has_byte b'/' ip ≡ false
    → port ≤ max_int
    → split_target (target_of scheme ip (pos port)) ≡ (ip, pos port)
unfolding split_target has_byte ℕ_discrete
split_target-target_of scheme ip port one_of_two h small =
    rw
      (
        without_scheme scheme ip port h one_of_two,
        trim_suffix-absent b'/' "/" (address ip port) refl (address-no_slash ip port h),
        cut_address ip port,
        atoi-itoa port small,
      )
      refl

-- Of two targets with schemes that have no colon, the new one gets the scheme of the old one and
-- keeps what follows its own.
pub preserve_scheme_kept :
    (scheme rest new_scheme new_rest : String)
    → has_byte b':' scheme ≡ false
    → has_byte b':' new_scheme ≡ false
    → preserve_scheme (scheme <> ("://" <> rest)) (new_scheme <> ("://" <> new_rest))
      ≡ scheme <> ("://" <> new_rest)
unfolding preserve_scheme
preserve_scheme_kept scheme rest new_scheme new_rest h h' =
    rw
      (
        cut-append b':' ":" "//" scheme rest refl h,
        cut-append b':' ":" "//" new_scheme new_rest refl h',
      )
      refl

-- Of two targets whose schemes have no colon, the new one gets the scheme of the old one and keeps
-- its own address and port.
pub preserve_scheme-target_of :
    (scheme new_scheme ip new_ip : String) (port new_port : ℕ)
    → has_byte b':' scheme ≡ false
    → has_byte b':' new_scheme ≡ false
    → preserve_scheme (target_of scheme ip (pos port)) (target_of new_scheme new_ip (pos new_port))
      ≡ target_of scheme new_ip (pos new_port)
unfolding target_of
preserve_scheme-target_of scheme new_scheme ip new_ip port new_port h h' =
    preserve_scheme_kept scheme (address ip port) new_scheme (address new_ip new_port) h h'
