-- ===== src/Server/Mongo/Laws.antt =====
-- What the documented behaviour of the database says of one document.
use xyzwhiteboard.Base.{true, false, some, List, ◌≡◌, ◌≢◌, refl, arith}
use xyzwhiteboard.Server.Mongo.{Mongo, Documented, WhiteboardDoc, Operator, apply_operators}

module _ {M : Mongo} (D : Documented M) where
  pub same_oid_refl : (o : M.Oid) → D.same_oid o o ≡ true
  same_oid_refl o = (D.same_oid_iff o o).1 refl

  pub same_oid_ne : (o p : M.Oid) → o ≢ p → D.same_oid o p ≡ false
  same_oid_ne o p h = ground (arith, D.same_oid_iff o p)

  pub whiteboard-updated_self :
      (db : M.Db) (o : M.Oid) (ops : List Operator) {doc : WhiteboardDoc}
      → D.whiteboard db o ≡ some doc
      → D.whiteboard (D.updated db o ops) o ≡ some (apply_operators ops doc)
  whiteboard-updated_self db o ops h = rw (D.whiteboard-updated, same_oid_refl o, h) refl

  pub whiteboard-updated_ne :
      (db : M.Db) (o : M.Oid) (ops : List Operator) (p : M.Oid)
      → o ≢ p
      → D.whiteboard (D.updated db o ops) p ≡ D.whiteboard db p
  whiteboard-updated_ne db o ops p h = rw (D.whiteboard-updated, same_oid_ne o p h) refl
