-- ===== src/Path/Tests.antt =====
-- The tests of procri/pkg/runtimeservice/util_test.go and of `isPathAllowed`, and the theorems on
-- paths at a path of a mount.
use luna_for_mac.Base.{true, false, [], ◌∷◌, ◌≡◌, refl, not}
use luna_for_mac.Path.{split_path, is_inside_path, is_path_allowed}
use luna_for_mac.Path.Reached.{reached}
use luna_for_mac.Path.Allowed.{protected, starts_in, is_path_allowed_lem}

test_split_path :
    (split_path "/usr/bin/ls" ≡ "usr" ∷ "bin" ∷ "ls" ∷ [])
    × (split_path "/" ≡ [])
    × (split_path "//usr/bin" ≡ "usr" ∷ "bin" ∷ [])
    × (split_path "//usr///local/bin//foo//" ≡ "usr" ∷ "local" ∷ "bin" ∷ "foo" ∷ [])
unfolding split_path
test_split_path = (refl, refl, refl, refl)

test_is_inside_path :
    (is_inside_path "//usr/bin" "/usr" ≡ true)
    × (is_inside_path "/usr/bin" "//usr" ≡ true)
    × (is_inside_path "/usr" "/usr/bin" ≡ false)
    × (is_inside_path "/usrx/bin" "/usr" ≡ false)
    × (is_inside_path "/etc/hosts//" "/etc" ≡ true)
unfolding is_inside_path
test_is_inside_path = (refl, refl, refl, refl, refl)

test_is_path_allowed :
    (is_path_allowed "/etc/hosts" ≡ false)
    × (is_path_allowed "/usr/local/bin/foo" ≡ false)
    × (is_path_allowed "/var/kubernetes/secrets/token" ≡ true)
    × (is_path_allowed "/foobar" ≡ true)
unfolding is_path_allowed
test_is_path_allowed = (refl, refl, refl, refl)

is_path_allowed_lem_example :
    is_path_allowed "/var/../etc/hosts" ≡ not (starts_in protected (reached "/var/../etc/hosts"))
is_path_allowed_lem_example = is_path_allowed_lem "/var/../etc/hosts" refl

test_reached : reached "/var/../etc//./hosts" ≡ "etc" ∷ "hosts" ∷ []
unfolding reached
test_reached = refl
