-- ===== src/Web/Services/Create.antt =====
-- internal/web/handle_services.go: what `createService` does on each of its branches.
use Prim.Native.String.{count}
use text.Mathlib.TextLemmas.{length-append}
use homelab_homepage.Prelude.{
  String, ◌<>◌, ◌≡◌, ◌≢◌, Bool, true, false, ◌&&◌, not, Option, none, some, arith, ◌==◌, ◌!=◌,
  string_eq, if◌then◌else◌, Bool-cases, Option-cases, inl, inr, refl, subst, ap, ℤ, contains, [],
  ◌∷◌,
}
use homelab_homepage.Go.Map.{lookup, insert, lookup-insert}
use homelab_homepage.Go.Heap.{Ref}
use homelab_homepage.Go.Text.{is_some}
use homelab_homepage.Go.Number.{itoa}
use homelab_homepage.Util.{parse_form_bool}
use homelab_homepage.Util.Subdomain.{sanitise_subdomain}
use homelab_homepage.Util.Subdomain.Label.{sanitise_subdomain-IsLabel}
use homelab_homepage.Store.Data.{icon_file}
use homelab_homepage.Store.Services.{get_service_by_subdomain}
use homelab_homepage.Store.Services.Invariant.{add_service-IsIndexed}
use homelab_homepage.Store.Discovered
use homelab_homepage.Store.Discovered.{present, get_discovered_by_id}
use homelab_homepage.Store.Discovered.Invariant.{remove_discovered-IsIndexed}
use homelab_homepage.Store.State.{Store, IsIndexed}
use homelab_homepage.Cf.Api.{Api}
use homelab_homepage.Discovery.Target.{target_of}
use homelab_homepage.Web.Server.{
  Server, Setup, Draw, Status, no_content, bad_request, not_found, conflict,
}
use homelab_homepage.Web.Services.{CreateForm, Origin, origin, created, create_from, create_service}

abbrev pub is_created : Status → Bool
is_created no_content = true
is_created _ = false

-- The values of a form that stand for yes.
abbrev pub is_set : String → Bool
is_set = contains ("on" ∷ "true" ∷ "1" ∷ [])

-- The status that the request and the store alone decide.
abbrev pub status_of : Option CreateForm → (String → String) → Store → Status
status_of none sanitise st = bad_request
status_of (some f) sanitise st =
    if not (is_set f.direct_only) && is_some (lookup (sanitise f.subdomain) st.services.services)
    then conflict
    else if f.discovered_id == ""
    then (if f.target == "" then bad_request else no_content)
    else if is_some (lookup f.discovered_id st.discovered.discovered_idx)
    then no_content
    else not_found

-- The status for what a new service is made of.
status_of_origin : Option Origin → Status
status_of_origin none = not_found
status_of_origin (some o) = if o.target == "" then bad_request else no_content

target_of-filled : (scheme ip : String) (port : ℤ) → target_of scheme ip port ≢ ""
unfolding target_of
target_of-filled scheme ip port e =
    let rest = ip <> (":" <> itoa port) in
    omega (arith, ap count e, length-append scheme ("://" <> rest), length-append "://" rest)

is_set-eq : (val : String) → parse_form_bool val ≡ is_set val
unfolding parse_form_bool
is_set-eq val = ground arith

present-eq : (o : Option Ref) → present o ≡ is_some o
present-eq none = refl
present-eq (some p) = refl

-- The code decides as described.
decided :
    (f : CreateForm) (sanitise : String → String) (st : Store)
    → (if not (parse_form_bool f.direct_only)
          && present (get_service_by_subdomain (sanitise f.subdomain) st.services)
        then conflict
        else status_of_origin (origin f st))
      ≡ status_of (some f) sanitise st
unfolding origin status_of_origin get_service_by_subdomain get_discovered_by_id
decided f sanitise st =
    rw (is_set-eq f.direct_only, present-eq (lookup (sanitise f.subdomain) st.services.services))
      (elim (Option-cases (lookup f.discovered_id st.discovered.discovered_idx)) [
        | inl e ↦ ground (arith, e)
        | inr (p, e) ↦
            let d = Discovered.deref st.discovered p in
            ground
              (arith, e, target_of-filled "https" d.ip d.port, target_of-filled "http" d.ip d.port)
      ])

-- A rejection changes nothing.
abbrev pub Answers : (api : Api) → Server api → Status → Status × Server api → Type 0
Answers api s status (given, s') = (given ≡ status) × (is_created given ≡ false → s' ≡ s)

create_from-Answers :
    (api : Api) (setup : Setup) (draw : Draw) (f : CreateForm) (sub : String) (s : Server api)
    (o : Option Origin)
    → Answers api s (status_of_origin o) (create_from api setup draw f sub o s)
unfolding status_of_origin
create_from-Answers api setup draw f sub s none = (refl, λ _. refl)
create_from-Answers api setup draw f sub s (some o) = elim (Bool-cases (o.target == "")) [
  | inl bad ↦ rw bad (refl, λ _. refl)
  | inr given ↦ rw given (refl, λ no_error. ground arith)
]

create_service_unparsed :
    (api : Api) (setup : Setup) (draw : Draw) (s : Server api)
    → Answers api s bad_request (create_service api setup draw none s)
unfolding create_service
create_service_unparsed api setup draw s = (refl, λ _. refl)

create_service_decided :
    (api : Api) (setup : Setup) (draw : Draw) (f : CreateForm) (s : Server api)
    → Answers api s
        (if not (parse_form_bool f.direct_only)
            && present (
                get_service_by_subdomain
                  (sanitise_subdomain setup.lower f.subdomain)
                  s.store.services)
          then conflict
          else status_of_origin (origin f s.store))
        (create_service api setup draw (some f) s)
unfolding create_service
create_service_decided api setup draw f s =
    let sub = sanitise_subdomain setup.lower f.subdomain in
    let direct = parse_form_bool f.direct_only in
    let named : (not direct && sub == "") ≡ false =
      ground (arith, (sanitise_subdomain-IsLabel setup.lower f.subdomain).filled) in
    elim (Bool-cases (not direct && present (get_service_by_subdomain sub s.store.services))) [
      | inl taken ↦ rw (named, taken) (refl, λ _. refl)
      | inr open_to ↦
          rw (named, open_to) (create_from-Answers api setup draw f sub s (origin f s.store))
    ]

module _ (api : Api) (setup : Setup) (draw : Draw) (form : Option CreateForm) (s : Server api) where
  -- The answer to a request for a new service is the one that the request and the store decide,
  -- whatever Cloudflare answers: a form that cannot be parsed is bad; a taken subdomain is a
  -- conflict unless the service is direct-only; of a service without a discovered id an empty
  -- target is bad, and all else succeeds; one with a discovered id succeeds if the store has an
  -- entry with that id, and is not found if it has none. The test for an empty subdomain plays no
  -- part. A rejection leaves the store, the icons and the world as they were.
  pub create_service_status :
      Answers api s
        (status_of form (sanitise_subdomain setup.lower) s.store)
        (create_service api setup draw form s)
  create_service_status =
      elim form
        as (λ form.
          Answers api s (status_of form (sanitise_subdomain setup.lower) s.store)
            (create_service api setup draw form s)) [
              | none ↦ create_service_unparsed api setup draw s
              | some f ↦
                  subst (λ status. Answers api s status (create_service api setup draw (some f) s))
                    (decided f (sanitise_subdomain setup.lower) s.store)
                    (create_service_decided api setup draw f s)
            ]

module _ (api : Api) (setup : Setup) (draw : Draw) (s : Server api) (v : IsIndexed s.store)
    (fresh : lookup draw.new_id s.store.services.id_idx ≡ none)
    (unused : lookup ("_direct_" <> draw.new_id) s.store.services.services ≡ none) where
  created-IsIndexed :
      (f : CreateForm) (sub : String) (o : Option Origin)
      → (not (parse_form_bool f.direct_only)
          && present (get_service_by_subdomain sub s.store.services))
        ≡ false
      → IsIndexed (create_from api setup draw f sub o s).1.store
  unfolding created get_service_by_subdomain
  created-IsIndexed f sub none open_to = v
  created-IsIndexed f sub (some o) open_to = elim (Bool-cases (o.target == "")) [
    | inl bad ↦ rw bad v
    | inr given ↦ rw given (record {
      services =
          add_service-IsIndexed _ s.store.services v.services (ground (arith, unused, open_to))
            fresh;
      discovered = ground (
        arith,
        v.discovered,
        remove_discovered-IsIndexed f.discovered_id s.store.discovered v.discovered,
      );
      ignored = v.ignored;
    })
  ]

  -- Any request for a new service leaves all indexes of the store consistent if they were,
  -- provided that the new id is not taken, neither as an id nor in the subdomain that is made of
  -- it for a direct service.
  pub create_service-IsIndexed :
      (form : Option CreateForm) → IsIndexed (create_service api setup draw form s).1.store
  unfolding create_service
  create_service-IsIndexed none = v
  create_service-IsIndexed (some f) =
      let sub = sanitise_subdomain setup.lower f.subdomain in
      let direct = parse_form_bool f.direct_only in
      let named : (not direct && sub == "") ≡ false =
        ground (arith, (sanitise_subdomain-IsLabel setup.lower f.subdomain).filled) in
      elim (Bool-cases (not direct && present (get_service_by_subdomain sub s.store.services))) [
        | inl taken ↦ rw (named, taken) v
        | inr open_to ↦ rw (named, open_to) (created-IsIndexed f sub (origin f s.store) open_to)
      ]

-- Where icons can be written and the discovered entry, of another id than the new one, has an icon
-- file that is there, the new service is left with the bytes of that file, whatever icon the
-- request brought.
pub created_icon :
    (api : Api) (setup : Setup) (draw : Draw) (f : CreateForm) (sub bytes : String) (o : Origin)
    (s : Server api)
    → draw.writable ≡ true
    → f.discovered_id ≢ ""
    → f.discovered_id ≢ draw.new_id
    → o.icon ≡ icon_file
    → lookup f.discovered_id s.icons ≡ some bytes
    → lookup draw.new_id (created api setup draw f sub o s).icons ≡ some bytes
unfolding created
created_icon api setup draw f sub bytes o s writable named other file there =
    let uploads = if f.upload != "" then insert draw.new_id f.upload s.icons else s.icons in
    let same : lookup f.discovered_id uploads ≡ some bytes =
      ground (arith, there, other, lookup-insert f.discovered_id draw.new_id f.upload s.icons) in
    ground (arith, writable, named, file, same, lookup-insert draw.new_id draw.new_id bytes uploads)
