-- ===== src/Server/Guard.antt =====
-- The token check of server.py.
use browserbench.Db.{Db}
