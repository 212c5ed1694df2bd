-- ===== src/Store/State.antt =====
-- The parts of the store of internal/store/store.go that its clients change together.
use homelab_homepage.Store.Services
use homelab_homepage.Store.Services.{Services}
use homelab_homepage.Store.Discovered
use homelab_homepage.Store.Discovered.{Discovered}
use homelab_homepage.Store.Ignored
use homelab_homepage.Store.Ignored.{Ignored}

pub record Store : Type 0 where
  pub services : Services
  pub discovered : Discovered
  pub ignored : Ignored

abbrev pub empty : Store
empty = record { services = Services.empty; discovered = Discovered.empty; ignored = Ignored.empty }

-- All indexes agree with what they index.
pub record IsIndexed (st : Store) : Type 0 where
  pub services : Services.Invariant.IsIndexed st.services
  pub discovered : Discovered.Invariant.IsIndexed st.discovered
  pub ignored : Ignored.Moves.IsIndexed st.ignored
