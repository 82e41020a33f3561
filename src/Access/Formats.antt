-- ===== src/Access/Formats.antt =====
-- The permissions that policies can hold, as keys of a domain.
use Prim.Native.String
use gcdr.Base.{List, some, ◌∷◌, [], none, Elem, arith, ◌≡◌, String, refl, if_either, inl, inr}
use gcdr.Base.Split.{append-Lacks, Lacks, split-Lacks}
use gcdr.Authorization.Data.{Env, Db}
use gcdr.Authorization.Service.{Op, run_op}
use gcdr.Authorization.Service.Formats.{HasFormats, run_op-HasFormats}
use gcdr.Authorization.Effective.{EffectivePermission}
use gcdr.Authorization.Effective.Sources.{effective_about}
use gcdr.Authorization.Matching.{IsPermission, AllInClass, dotted, split-dotted}
use gcdr.Access.Data.{BundleEnv, BundleDb, parse_domain_permission_key}
use gcdr.Access.Build.{add_permissions, build_domain_policies, domain_key}
use gcdr.Access.Service.{permissions_of}

AllInClass-Lacks : (s : String) → AllInClass s → Lacks b'.' s × Lacks b':' s
AllInClass-Lacks String.[] h = (tt, tt)
AllInClass-Lacks (String.◌∷◌ c s) (h, hs) =
    let (dots, colons) = AllInClass-Lacks s hs in ((ground arith, dots), (ground arith, colons))

pub dot-Lacks : (t : String) → Lacks b':' t → Lacks b':' (String.◌++◌ "." t)
dot-Lacks t h = append-Lacks b':' "." t (ground arith, tt) h

-- Three segments are no key: the pattern wants a colon and the other format four parts.
domain_key-IsPermission : (perm : String) → IsPermission perm → domain_key perm ≡ none
unfolding domain_key parse_domain_permission_key
domain_key-IsPermission perm (d, f, a, (_, d_in), (_, f_in), (_, a_in), e) =
    let (d_dots, d_colons) = AllInClass-Lacks d d_in in
    let (f_dots, f_colons) = AllInClass-Lacks f f_in in
    let (a_dots, a_colons) = AllInClass-Lacks a a_in in
    let whole =
      append-Lacks b':' d _ d_colons
        (dot-Lacks _ (append-Lacks b':' f _ f_colons (dot-Lacks a a_colons))) in
    rw e (
      rw (split-Lacks b':' (dotted d f a) whole)
        (rw (split-dotted d f a d_dots f_dots a_dots) refl))

build-empty :
    (perms : List EffectivePermission)
    → ((p : EffectivePermission) → Elem p perms → IsPermission p.permission)
    → build_domain_policies perms ≡ []
unfolding build_domain_policies add_permissions
build-empty [] h = refl
build-empty (p ∷ perms) h = rw (domain_key-IsPermission p.permission (h p (inl refl))) (
    if_either (λ m. add_permissions perms m ≡ []) p.allowed
      (λ _. build-empty perms (λ q m. h q (inr m))) (λ _. build-empty perms (λ q m. h q (inr m))))

HasFormats-empty :
    (env : BundleEnv) (user scope : String) (db : BundleDb)
    → HasFormats db.authorization
    → build_domain_policies (permissions_of env user scope db) ≡ []
unfolding permissions_of
HasFormats-empty env user scope db formats =
    build-empty (permissions_of env user scope db)
      (λ e m. effective_about IsPermission _ user (some scope) db.authorization e formats m)

-- The tables after the operations, each with its environment and its user.
unfoldable pub run : List (Env × String × Op) → Db → Db
run [] db = db
run ((env, user, op) ∷ ops) db = run ops (run_op env user op db).1

run-HasFormats :
    (ops : List (Env × String × Op)) (db : Db) → HasFormats db → HasFormats (run ops db)
unfolding run
run-HasFormats [] db h = h
run-HasFormats ((env, user, op) ∷ ops) db h =
    run-HasFormats ops (run_op env user op db).1 (run_op-HasFormats env user op db h)

-- As long as policies are made and changed by the service, from tables whose permissions have the format
-- that it asks for, no bundle that is built has a domain policy: the format has three parts and no
-- colon, and a key of a domain has four parts.
pub run-build_domain_policies :
    (ops : List (Env × String × Op)) (env : BundleEnv) (user scope : String) (db : BundleDb)
    → HasFormats db.authorization
    → build_domain_policies
        (permissions_of env user scope (record db { authorization = run ops db.authorization }))
      ≡ []
run-build_domain_policies ops env user scope db h =
    HasFormats-empty env user scope (record db { authorization = run ops db.authorization })
      (run-HasFormats ops db.authorization h)
