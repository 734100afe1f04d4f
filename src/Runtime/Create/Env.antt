-- ===== src/Runtime/Create/Env.antt =====
-- `makeEnvList` of procri/pkg/runtimeservice/container.go.
use luna_for_mac.Base.{
  String, Bool, not, ◌≡◌, refl, sym, ap, ◌∙◌, ◌&&◌, List, [], ◌∷◌, ◌++◌, map, ◌==◌, if◌then◌else◌,
  ◌<>◌, keep, keep-keep, keep-all, arith, eq_iff,
}
use luna_for_mac.Json.{TextMap, has_key}

-- `defaultEnvMap`. Go ranges over the map in any order; this is one of them.
abbrev pub default_env : String → TextMap
default_env hostname =
    ("HOSTNAME", hostname)
    ∷ ("TERM", "xterm")
    ∷ ("HOME", "/")
    ∷ ("PATH", "/usr/local/sbin:/usr/local/bin:/usr/sbin:/usr/bin:/sbin:/bin")
    ∷ []

-- Go's `delete` on a map
delete_key : String → TextMap → TextMap
delete_key k [] = []
delete_key k ((j, v) ∷ m) = let rest = delete_key k m in if j == k then rest else (j, v) ∷ rest

delete_keys : TextMap → TextMap → TextMap
unfolding delete_key
delete_keys [] defaults = defaults
delete_keys ((k, v) ∷ envs) defaults = delete_keys envs (delete_key k defaults)

abbrev pub env_text : String × String → String
env_text (k, v) = k <> ("=" <> v)

unfoldable pub make_env_list : TextMap → String → List String
unfolding delete_keys
make_env_list envs hostname =
    map env_text envs ++ map env_text (delete_keys envs (default_env hostname))

delete_key_lem : (k : String) (m : TextMap) → delete_key k m ≡ keep (λ e. not (e.0 == k)) m
unfolding delete_key
delete_key_lem k [] = refl
delete_key_lem k ((j, v) ∷ m) = ground (arith, delete_key_lem k m)

keep_same :
    (p q : String × String → Bool) (m : TextMap)
    → ((e : String × String) → p e ≡ q e)
    → keep p m ≡ keep q m
keep_same p q [] h = refl
keep_same p q (e ∷ m) h = rw (h e, keep_same p q m h) refl

other_key :
    (k v : String) (envs : TextMap) (e : String × String)
    → (not (e.0 == k) && not (has_key e.0 envs)) ≡ not (has_key e.0 ((k, v) ∷ envs))
other_key k v envs e = ground (arith, eq_iff e.0 k, eq_iff k e.0)

delete_keys_lem : (envs m : TextMap) → delete_keys envs m ≡ keep (λ e. not (has_key e.0 envs)) m
unfolding delete_keys
delete_keys_lem [] m = sym (keep-all m)
delete_keys_lem ((k, v) ∷ envs) m =
    ap (delete_keys envs) (delete_key_lem k m)
    ∙ delete_keys_lem envs (keep (λ e. not (e.0 == k)) m)
    ∙ keep-keep (λ e. not (has_key e.0 envs)) (λ e. not (e.0 == k)) m
    ∙ keep_same _ _ m (other_key k v envs)

map-append : (xs ys : TextMap) → map env_text (xs ++ ys) ≡ map env_text xs ++ map env_text ys
map-append [] ys = refl
map-append (x ∷ xs) ys = ap (λ ts. env_text x ∷ ts) (map-append xs ys)

-- The environment of a new container is the request's variables, all of them and in their order,
-- and then exactly those defaults whose names the request does not give.
pub make_env_list_lem :
    (envs : TextMap) (hostname : String)
    → make_env_list envs hostname
      ≡ map env_text (envs ++ keep (λ e. not (has_key e.0 envs)) (default_env hostname))
unfolding make_env_list
make_env_list_lem envs hostname =
    ap (λ m. map env_text envs ++ map env_text m) (delete_keys_lem envs (default_env hostname))
    ∙ sym (map-append envs (keep (λ e. not (has_key e.0 envs)) (default_env hostname)))
