-- ===== src/Filesystem/Under.antt =====
-- What the comparison of `IsPathUnderRoot` decides.
use fresh_core_native.Prelude.{
  ◌≡◌, ◌≢◌, refl, sym, ap, ◌∙◌, ◌↔◌, Bytes, slash, join, starts_with-append, starts_with_split,
  true, [], ◌∷◌, ◌++◌, length, length-append, drop-length-append, arith,
}
use fresh_core_native.Filesystem.{is_under, byte_at}

byte_at-append :
    (root rest : Bytes) → byte_at (length root) (root ++ rest) slash ≡ byte_at 0 rest slash
byte_at-append root rest = rw (byte_at, drop-length-append root rest) refl

slash_first :
    (root path rest : Bytes)
    → path ≡ root ++ rest
    → byte_at 0 rest slash ≡ true
    → (name : Bytes) × (path ≡ join root name)
slash_first root path [] e at = ground arith
slash_first root path (c ∷ name) e at = (name, ground arith)

below : (root path : Bytes) → is_under path root ≡ true → (name : Bytes) × (path ≡ join root name)
unfolding is_under
below root path h =
    let (rest, e) = starts_with_split root path (ground arith) in
    slash_first root path rest e (
      sym (byte_at-append root rest)
      ∙ (ap (λ (p : Bytes). byte_at (length root) p slash) (sym e) ∙ ground arith))

join-under : (root name : Bytes) → root ≢ [] → is_under (join root name) root ≡ true
unfolding is_under
join-under [] name ne = absurd (ne refl)
join-under (a ∷ root) name ne = ground (
  arith,
  starts_with-append (a ∷ root) (slash ∷ name),
  length-append root (slash ∷ name),
  drop-length-append (a ∷ root) (slash ∷ name),
)

-- A canonical path counts as under a root that is not empty if and only if it is the root, a slash
-- and a rest: a directory that only shares the root as a prefix of its name does not.
pub is_under_iff :
    (root path : Bytes)
    → root ≢ []
    → (is_under path root ≡ true) ↔ ((name : Bytes) × (path ≡ join root name))
is_under_iff root path ne = (below root path, λ found. rw found.1 (join-under root found.0 ne))
