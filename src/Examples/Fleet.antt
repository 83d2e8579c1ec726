-- ===== src/Examples/Fleet.antt =====
-- Ten sessions on three workers (internal/session/manager.go).
use tg_control_api_server.Session.Balance.{share_of, balance}
use tg_control_api_server.Session.Balance.Shares.{Fair, balance-Fair}

balance-Fair_example : Fair 7 (share_of 10 3) 7 20 (balance 7 10 3 7 20)
balance-Fair_example = balance-Fair 7 10 3 7 20
