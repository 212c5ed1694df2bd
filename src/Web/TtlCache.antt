-- ===== src/Web/TtlCache.antt =====
-- internal/web/ttlcache.go: the cache with a cap and with entries that expire. The clock is an
-- argument, and the map's order is the one in which `range` visits it.
pub mod Bounds
use homelab_homepage.Prelude.{
  ℕ, ◌+◌, ◌/◌, zero, suc, String, Bool, Option, none, some, List, [], ◌∷◌, ltb, ◌==◌, string_eq,
  ◌||◌, if◌then◌else◌, length,
}
use homelab_homepage.Go.Map.{Map, lookup, insert, erase}

pub record TtlEntry {ℓ} (V : Type ℓ) : Type ℓ where
  pub value : V
  pub expires : ℕ

pub record TtlCache {ℓ} (V : Type ℓ) : Type ℓ where
  pub m : Map (TtlEntry V)
  pub cap : ℕ

-- max(1, n/4)
abbrev pub quarter : ℕ → ℕ
quarter n = if ltb 1 (n / 4) then n / 4 else 1

module _ {ℓ} {V : Type ℓ} where
  abbrev pub new_ttl_cache : ℕ → TtlCache V
  new_ttl_cache capacity = record { m = []; cap = capacity }

  -- `now.After(e.expires)`
  abbrev pub is_expired : ℕ → TtlEntry V → Bool
  is_expired now e = ltb e.expires now

  abbrev pub get_entry : ℕ → String → Option (TtlEntry V) → TtlCache V → Option V × TtlCache V
  get_entry now key none c = (none, c)
  get_entry now key (some e) c =
      if is_expired now e then (none, record c { m = erase key c.m }) else (some e.value, c)

  unfoldable pub get : ℕ → String → TtlCache V → Option V × TtlCache V
  get now key c = get_entry now key (lookup key c.m) c

  -- The loop that deletes what has expired, as it visits the map.
  unfoldable pub sweep : ℕ → Map (TtlEntry V) → Map (TtlEntry V)
  sweep now [] = []
  sweep now ((k, e) ∷ m) =
      let rest = sweep now m in if is_expired now e then rest else (k, e) ∷ rest

  -- The loop that looks for the earliest expiry; an empty key stands for none found yet.
  unfoldable pub oldest_of : String → ℕ → Map (TtlEntry V) → String
  oldest_of oldest exp [] = oldest
  oldest_of oldest exp ((k, e) ∷ m) =
      let older = oldest_of k e.expires m in
      let same = oldest_of oldest exp m in if oldest == "" || ltb e.expires exp then older else same

  unfoldable pub evict_oldest : Map (TtlEntry V) → Map (TtlEntry V)
  evict_oldest m = let oldest = oldest_of "" 0 m in if oldest == "" then m else erase oldest m

  unfoldable pub evict_times : ℕ → Map (TtlEntry V) → Map (TtlEntry V)
  evict_times zero m = m
  evict_times (suc n) m = evict_times n (evict_oldest m)

  unfoldable pub evict_locked : ℕ → TtlCache V → TtlCache V
  evict_locked now c =
      let live = sweep now c.m in
      if ltb (length live) c.cap
      then record c { m = live }
      else record c { m = evict_times (quarter (length live)) live }

  unfoldable pub set : ℕ → String → V → ℕ → TtlCache V → TtlCache V
  set now key value ttl c =
      let made = if ltb (length c.m) c.cap then c else evict_locked now c in
      record made { m = insert key (record { value = value; expires = now + ttl }) made.m }
