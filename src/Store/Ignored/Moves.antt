-- ===== src/Store/Ignored/Moves.antt =====
-- `IgnoreDiscovered` and `UnignoreService` on consistent indexes.
use mathlib.Core.Option
use homelab_homepage.Prelude.{
  ℕ, String, ◌<◌, ◌≡◌, true, false, Option, none, some, arith, ◌==◌, ◌!=◌, string_eq, nat_eq,
  if◌then◌else◌, Option-cases, inl, inr, contains, contains-append, contains-keep, ℤ,
}
use homelab_homepage.Go.Map.{lookup, lookup-insert, lookup-erase}
use homelab_homepage.Go.Heap.{Ref}
use homelab_homepage.Store.Data.{IgnoredService, DiscoveredService}
use homelab_homepage.Store.Discovered
use homelab_homepage.Store.Discovered.{Discovered, remove_discovered}
use homelab_homepage.Store.Discovered.Invariant
use homelab_homepage.Store.Discovered.View
use homelab_homepage.Store.Ignored.{
  Ignored, deref, ignored_key, ignored_of, append_ignored, withdraw, release, ignore_discovered,
  unignore_service, is_ignored,
}

pub record IsIndexed (t : Ignored) : Type 0 where
  pub listed :
      (p : Ref)
      → contains t.ignored p ≡ true
      → (lookup (deref t p).id t.ignored_idx ≡ some p) × (p < t.heap.next)
  pub by_id :
      (i : String) (p : Ref)
      → lookup i t.ignored_idx ≡ some p
      → ((deref t p).id ≡ i) × (contains t.ignored p ≡ true)

-- The ignored entry `id`.
unfoldable pub view : Ignored → String → Option IgnoredService
view t id = Option.map (deref t) (lookup id t.ignored_idx)

-- Taking an entry out is `RemoveDiscovered`.
withdraw-eq :
    (id : String) (p : Ref) (d : Discovered)
    → lookup id d.discovered_idx ≡ some p
    → withdraw id p d ≡ remove_discovered id d
unfolding withdraw remove_discovered
withdraw-eq id p d e = rw (e, remove_discovered)

withdraw-listed :
    (id : String) (p : Ref) (d : Discovered) (q : Ref)
    → contains (withdraw id p d).discovered q
      ≡ (if (Discovered.deref d q).id == id then false else contains d.discovered q)
unfolding withdraw
withdraw-listed id p d q =
    ground (arith, contains-keep (λ r. (Discovered.deref d r).id != id) d.discovered q)

view-withdraw :
    (id : String) (p : Ref) (d : Discovered)
    → Discovered.Invariant.IsIndexed d
    → lookup id d.discovered_idx ≡ some p
    → (i : String)
    → Discovered.View.view (withdraw id p d) i
      ≡ (if id == i then none else Discovered.View.view d i)
view-withdraw id p d vd e i =
    rw (withdraw-eq id p d e) (Discovered.View.view-remove_discovered d vd id i)

append_ignored-IsIndexed :
    (ig : IgnoredService) (t : Ignored)
    → IsIndexed t
    → lookup ig.id t.ignored_idx ≡ none
    → IsIndexed (append_ignored ig t)
unfolding append_ignored
append_ignored-IsIndexed ig t v fresh = record {
  listed = λ p. simp (lookup-insert, contains-append) (λ h. ground (arith, v.listed p));
  by_id =
      λ i p. simp (lookup-insert, contains-append) (λ h. ground (arith, v.by_id i p, v.listed p));
}

release-IsIndexed :
    (id : String) (p : Ref) (t : Ignored)
    → IsIndexed t
    → lookup id t.ignored_idx ≡ some p
    → IsIndexed (release id p t)
unfolding release
release-IsIndexed id p t v e = record {
  listed = λ q. simp (lookup-erase, contains-keep) (λ h. ground (arith, v.listed q, v.by_id id p));
  by_id =
      λ i q. simp (lookup-erase, contains-keep) (λ h. ground (arith, v.by_id i q, v.by_id id p));
}

view-append_ignored :
    (ig : IgnoredService) (t : Ignored)
    → IsIndexed t
    → (i : String) → view (append_ignored ig t) i ≡ (if ig.id == i then some ig else view t i)
unfolding view append_ignored
view-append_ignored ig t v i = elim (Option-cases (lookup i t.ignored_idx)) [
  | inl e ↦ simp lookup-insert (ground (arith, e))
  | inr (p, e) ↦ simp lookup-insert (ground (arith, e, v.by_id i p, v.listed p))
]

is_ignored-append :
    (ig : IgnoredService) (t : Ignored) (ip : String) (port : ℤ)
    → is_ignored ip port (append_ignored ig t)
      ≡ (if ignored_key ig.ip ig.port == ignored_key ip port then true else is_ignored ip port t)
unfolding is_ignored append_ignored
is_ignored-append ig t ip port = simp lookup-insert (ground arith)

-- What `IgnoreDiscovered` leaves of an entry that was there.
pub record IsMoved (now : ℕ) (id : String) (found : DiscoveredService) (d d' : Discovered)
    (t t' : Ignored) : Type 0 where
  -- The id names no discovered entry, and any other what it named; the list has lost the entries
  -- with that id and no others.
  pub left_discovered :
      (i : String)
      → Discovered.View.view d' i ≡ (if id == i then none else Discovered.View.view d i)
  pub left_list :
      (p : Ref)
      → contains d'.discovered p
        ≡ (if (Discovered.deref d p).id == id then false else contains d.discovered p)
  pub indexed : Discovered.Invariant.IsIndexed d' × IsIndexed t'
  pub entered :
      (i : String)
      → view t' i ≡ (
          if id == i
          then some (record {
            id = id;
            ip = found.ip;
            port = found.port;
            title = found.title;
            ignored_at = now;
          })
          else view t i)
  pub suppressed :
      (ip : String) (port : ℤ)
      → is_ignored ip port t' ≡ (
          if ignored_key found.ip found.port == ignored_key ip port
          then true
          else is_ignored ip port t)

module _ (now : ℕ) (id : String) (d : Discovered) (t : Ignored)
    (vd : Discovered.Invariant.IsIndexed d) (v : IsIndexed t) where
  -- Ignoring an id that is not discovered is an error.
  pub ignore_discovered_missing :
      Discovered.View.view d id ≡ none → ignore_discovered now id d t ≡ none
  unfolding ignore_discovered Discovered.View.view
  ignore_discovered_missing h = ground arith

  -- With consistent indexes, ignoring an entry that is discovered and not ignored yet succeeds and
  -- moves it: its id names no discovered entry any more and the list has lost it; it is ignored
  -- under its id with its address, its port, its title and the time of the call; its address is
  -- suppressed; all other entries and addresses stay, and the indexes stay consistent.
  pub ignore_discovered-IsMoved :
      (found : DiscoveredService)
      → Discovered.View.view d id ≡ some found
      → lookup id t.ignored_idx ≡ none
      → (d' : Discovered) × (t' : Ignored) × (ignore_discovered now id d t ≡ some (d', t'))
        × IsMoved now id found d d' t t'
  unfolding ignore_discovered Discovered.View.view
  ignore_discovered-IsMoved found h fresh = elim (Option-cases (lookup id d.discovered_idx)) [
    | inl e ↦ ground (arith, e)
    | inr (p, e) ↦
        let found_eq : Discovered.deref d p ≡ found = ground (arith, e, h) in
        let same : (Discovered.deref d p).id ≡ id = (vd.by_id id p e).0 in
        let ig = ignored_of now (Discovered.deref d p) in
        (
          withdraw id p d,
          append_ignored ig t,
          rw (e, ignore_discovered),
          record {
            left_discovered = λ i. view-withdraw id p d vd e i;
            left_list = λ q. withdraw-listed id p d q;
            indexed = (
              rw (withdraw-eq id p d e) (Discovered.Invariant.remove_discovered-IsIndexed id d vd),
              append_ignored-IsIndexed ig t v (rw same fresh),
            );
            entered = λ i. ground (arith, found_eq, same, view-append_ignored ig t v i);
            suppressed = λ ip port. ground (arith, found_eq, is_ignored-append ig t ip port);
          },
        )
  ]

-- What `UnignoreService` leaves.
pub record IsReleased (id : String) (t t' : Ignored) (ig : IgnoredService) : Type 0 where
  pub indexed : IsIndexed t'
  pub left : (i : String) → view t' i ≡ (if id == i then none else view t i)
  pub admitted :
      (ip : String) (port : ℤ)
      → is_ignored ip port t'
        ≡ (if ignored_key ig.ip ig.port == ignored_key ip port then false else is_ignored ip port t)

module _ (id : String) (t : Ignored) (v : IsIndexed t) where
  pub unignore_service_missing : view t id ≡ none → unignore_service id t ≡ none
  unfolding unignore_service view
  unignore_service_missing h = ground arith

  pub unignore_service-IsReleased :
      (ig : IgnoredService)
      → view t id ≡ some ig
      → (t' : Ignored) × (unignore_service id t ≡ some (ig, t')) × IsReleased id t t' ig
  unfolding unignore_service view release is_ignored
  unignore_service-IsReleased ig h = elim (Option-cases (lookup id t.ignored_idx)) [
    | inl e ↦ ground (arith, e)
    | inr (p, e) ↦
        let ig_eq : deref t p ≡ ig = ground (arith, e, h) in
        (
          release id p t,
          rw (e, unignore_service) (ground (arith, ig_eq)),
          record {
            indexed = release-IsIndexed id p t v e;
            left = λ i. simp lookup-erase (ground (arith, e, v.by_id id p));
            admitted = λ ip port. rw (← ig_eq) (simp lookup-erase (ground arith));
          },
        )
  ]
