-- ===== src/Gc/Protection.antt =====
-- Snapshot references and anchors as sets of ids.
use synthgen_core.Prelude.{
  Text, text_eq, text_eq_iff, text_mem, not, ◌&&◌, ◌||◌, ◌≡◌, List, [], ◌∷◌, arith, if◌then◌else◌,
}
use synthgen_core.Gc.{
  ProtectionChecker, is_snapshot_referenced, is_anchored, is_protected, set_insert, set_erase,
  add_snapshot_ref, remove_snapshot_ref, anchor, unanchor,
}

text_mem-set_insert :
    (id j : Text) (ids : List Text)
    → text_mem j (set_insert id ids) ≡ (text_eq id j || text_mem j ids)
unfolding set_insert text_mem
text_mem-set_insert id j ids = ground (arith, text_eq_iff id j)

text_mem-set_erase :
    (id j : Text) (ids : List Text)
    → text_mem j (set_erase id ids) ≡ (not (text_eq id j) && text_mem j ids)
unfolding set_erase text_mem
text_mem-set_erase id j [] = ground arith
text_mem-set_erase id j (i ∷ ids) =
    ground (arith, text_eq_iff id j, text_eq_iff i id, text_eq_iff i j, text_mem-set_erase id j ids)

-- After a change of the references or the anchors of `id`, a version `j` is protected as the change
-- says if `j` is `id`, and as before otherwise; a reference given up leaves an anchor in force, and
-- an anchor given up a reference.
pub is_protected-changes :
    (c : ProtectionChecker) (id j : Text)
    → (is_protected (add_snapshot_ref id c) j ≡ (text_eq id j || is_protected c j))
      × (is_protected (anchor id c) j ≡ (text_eq id j || is_protected c j))
      × (is_protected (remove_snapshot_ref id c) j
          ≡ (if text_eq id j then is_anchored c j else is_protected c j))
      × (is_protected (unanchor id c) j
          ≡ (if text_eq id j then is_snapshot_referenced c j else is_protected c j))
unfolding is_protected is_snapshot_referenced is_anchored add_snapshot_ref remove_snapshot_ref
    anchor unanchor
is_protected-changes c id j = (
  ground (arith, text_mem-set_insert id j c.snapshot_refs),
  ground (arith, text_mem-set_insert id j c.anchored),
  ground (arith, text_mem-set_erase id j c.snapshot_refs),
  ground (arith, text_mem-set_erase id j c.anchored),
)
