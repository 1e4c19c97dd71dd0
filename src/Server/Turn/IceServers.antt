-- ===== src/Server/Turn/IceServers.antt =====
-- server/src/turn.ts: the servers in the provider's answer.
use misaka_network.Common.{
  All, All-append, Bool, Bool-cases, List, Option, String, [], any, arith, false, if◌then◌else◌,
  inl, inr, ltb, none, refl, some, string_keys, subst, true, ℕ, ◌&&◌, ◌++◌, ◌==◌, ◌∷◌, ◌≡◌, ◌⊎◌,
}
use Prim.Native.String.{len}
use misaka_network.Server.Turn.{IceServer}

-- A parsed body; the keys of an object stand once.
mutual
  pub data Json : Type 0 where
    null : Json
    boolean : Bool → Json
    number : ℕ → Json
    text : String → Json
    array : Items → Json
    object : Fields → Json

  pub data Items : Type 0 where
    nil : Items
    cons : Json → Items → Items

  pub data Fields : Type 0 where
    end : Fields
    field : String → Json → Fields → Fields

unfoldable pub member : String → Fields → Option Json
member k end = none
member k (field j v fs) = let rest = member k fs in if j == k then some v else rest

abbrev pub is_text : Option Json → Option String
is_text (some (text s)) = some s
is_text _ = none

abbrev pub not_empty : String → Bool
not_empty s = ltb 0 (len s)

unfoldable pub texts : Items → List String
texts nil = []
texts (cons (text s) rest) = if not_empty s then s ∷ texts rest else texts rest
texts (cons _ rest) = texts rest

unfoldable pub normalize_urls : Option Json → List String
unfolding texts
normalize_urls (some (text s)) = if not_empty s then s ∷ [] else []
normalize_urls (some (array items)) = texts items
normalize_urls _ = []

-- push: what one entry adds.
unfoldable pub server_of : Json → List IceServer
unfolding member normalize_urls
server_of (object fs) = elim (normalize_urls (member "urls" fs)) [
  | [] ↦ []
  | u ∷ us ↦
      record {
        urls = u ∷ us;
        username = is_text (member "username" fs);
        credential = is_text (member "credential" fs);
      }
      ∷ []
]
server_of _ = []

unfoldable pub servers_of : Items → List IceServer
unfolding server_of
servers_of nil = []
servers_of (cons entry rest) = server_of entry ++ servers_of rest

abbrev pub cf_default_urls : List String
cf_default_urls =
    "stun:stun.cloudflare.com:3478" ∷ "turn:turn.cloudflare.com:3478?transport=udp"
    ∷ "turn:turn.cloudflare.com:3478?transport=tcp" ∷ "turns:turn.cloudflare.com:5349?transport=tcp"
    ∷ []

abbrev pub flat_server : Option String → Option String → List IceServer
flat_server (some username) (some credential) =
    record { urls = cf_default_urls; username = some username; credential = some credential } ∷ []
flat_server _ _ = []

unfoldable pub listed_servers : Fields → List IceServer
unfolding servers_of
listed_servers fs = elim (member "iceServers" fs) [
  | none ↦ flat_server (is_text (member "username" fs)) (is_text (member "credential" fs))
  | some (array items) ↦ servers_of items
  | some null ↦ server_of null
  | some (boolean b) ↦ server_of (boolean b)
  | some (number n) ↦ server_of (number n)
  | some (text s) ↦ server_of (text s)
  | some (object entry) ↦ server_of (object entry)
]

abbrev pub is_filled : Option String → Bool
is_filled none = false
is_filled (some s) = not_empty s

abbrev pub is_usable : IceServer → Bool
is_usable s = is_filled s.username && is_filled s.credential

-- normalizeIceServers, with none for the errors of the schema.
unfoldable pub normalize_ice_servers : Json → Option (List IceServer)
unfolding listed_servers
normalize_ice_servers (object fs) =
    let out = listed_servers fs in if any is_usable out then some out else none
normalize_ice_servers _ = none

abbrev pub has_any : List String → Bool
has_any [] = false
has_any (x ∷ xs) = true

abbrev pub HasUrls : IceServer → Type 0
HasUrls s = All (λ u. not_empty u ≡ true) s.urls × (has_any s.urls ≡ true)

texts-filled : (items : Items) → All (λ u. not_empty u ≡ true) (texts items)
unfolding texts
texts-filled nil = tt
texts-filled (cons null rest) = texts-filled rest
texts-filled (cons (boolean b) rest) = texts-filled rest
texts-filled (cons (number n) rest) = texts-filled rest
texts-filled (cons (array xs) rest) = texts-filled rest
texts-filled (cons (object fs) rest) = texts-filled rest
texts-filled (cons (text s) rest) = elim (Bool-cases (not_empty s)) [
  | inl filled ↦ rw (filled, texts) (filled, texts-filled rest)
  | inr blank ↦ rw (blank, texts) (texts-filled rest)
]

urls-filled : (o : Option Json) → All (λ u. not_empty u ≡ true) (normalize_urls o)
unfolding normalize_urls
urls-filled none = tt
urls-filled (some null) = tt
urls-filled (some (boolean b)) = tt
urls-filled (some (number n)) = tt
urls-filled (some (object fs)) = tt
urls-filled (some (array items)) = texts-filled items
urls-filled (some (text s)) = elim (Bool-cases (not_empty s)) [
  | inl filled ↦ rw (filled, normalize_urls) (filled, tt)
  | inr blank ↦ rw (blank, normalize_urls) tt
]

List-cases : (xs : List String) → (xs ≡ []) ⊎ ((y : String) × (ys : List String) × (xs ≡ y ∷ ys))
List-cases [] = inl refl
List-cases (y ∷ ys) = inr (y, ys, refl)

server_of-HasUrls : (j : Json) → All HasUrls (server_of j)
unfolding server_of
server_of-HasUrls null = tt
server_of-HasUrls (boolean b) = tt
server_of-HasUrls (number n) = tt
server_of-HasUrls (text s) = tt
server_of-HasUrls (array xs) = tt
server_of-HasUrls (object fs) = elim (List-cases (normalize_urls (member "urls" fs))) [
  | inl without ↦ rw (without, server_of) tt
  | inr (u, us, has) ↦
      let filled : All (λ x. not_empty x ≡ true) (u ∷ us) =
        subst (λ xs. All (λ x. not_empty x ≡ true) xs) has (urls-filled (member "urls" fs)) in
      rw (has, server_of) ((filled, refl), tt)
]

servers_of-HasUrls : (items : Items) → All HasUrls (servers_of items)
unfolding servers_of
servers_of-HasUrls nil = tt
servers_of-HasUrls (cons j rest) =
    All-append HasUrls (server_of j) (servers_of rest) (server_of-HasUrls j)
      (servers_of-HasUrls rest)

flat-HasUrls : (u c : Option String) → All HasUrls (flat_server u c)
flat-HasUrls none c = tt
flat-HasUrls (some u) none = tt
flat-HasUrls (some u) (some c) = (((refl, (refl, (refl, (refl, tt)))), refl), tt)

listed-HasUrls : (fs : Fields) → All HasUrls (listed_servers fs)
unfolding listed_servers
listed-HasUrls fs = by_member (member "iceServers" fs) refl
  where
    by_member : (o : Option Json) → member "iceServers" fs ≡ o → All HasUrls (listed_servers fs)
    by_member none e =
        rw (e, listed_servers)
          (flat-HasUrls (is_text (member "username" fs)) (is_text (member "credential" fs)))
    by_member (some (array items)) e = rw (e, listed_servers) (servers_of-HasUrls items)
    by_member (some null) e = rw (e, listed_servers) (server_of-HasUrls null)
    by_member (some (boolean b)) e = rw (e, listed_servers) (server_of-HasUrls (boolean b))
    by_member (some (number n)) e = rw (e, listed_servers) (server_of-HasUrls (number n))
    by_member (some (text s)) e = rw (e, listed_servers) (server_of-HasUrls (text s))
    by_member (some (object o)) e = rw (e, listed_servers) (server_of-HasUrls (object o))

-- An answer that is accepted has servers that can be used: each has an address and none of them is
-- empty, and one has a name with a password.
pub normalize_ice_servers-HasUrls :
    (resp : Json) (servers : List IceServer)
    → normalize_ice_servers resp ≡ some servers
    → All HasUrls servers × (any is_usable servers ≡ true)
unfolding normalize_ice_servers
normalize_ice_servers-HasUrls null servers h = cc
normalize_ice_servers-HasUrls (boolean b) servers h = cc
normalize_ice_servers-HasUrls (number n) servers h = cc
normalize_ice_servers-HasUrls (text s) servers h = cc
normalize_ice_servers-HasUrls (array xs) servers h = cc
normalize_ice_servers-HasUrls (object fs) servers h =
    let same : listed_servers fs ≡ servers = ground arith in
    (subst (λ xs. All HasUrls xs) same (listed-HasUrls fs), ground arith)
