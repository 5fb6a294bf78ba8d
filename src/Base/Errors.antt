-- ===== src/Base/Errors.antt =====
-- The errors that the source tells apart with `errors.Is`. `unique_violation` is PostgreSQL's
-- 23505 and `driver` any other error of the database driver or of the network.
pub data Error : Type 0 where
  driver : Error
  not_found unique_violation duplicate duplicate_user : Error
  not_owner not_member group_full group_dismissed bad_target owner_cant_quit : Error
  poison batch_fallback : Error
