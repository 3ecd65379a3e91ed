-- ===== src/Rider/Undo.antt =====
-- An acceptance that the rider takes back.
use fastmotion_delivery.Model.{Rider}
