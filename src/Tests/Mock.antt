-- ===== src/Tests/Mock.antt =====
-- The contract of the mock providers on concrete draws.
use high_throughput_notifica.Prelude.{true, false}
use high_throughput_notifica.Provider.Mock.{Luck, email_send, sms_send, push_send}
use high_throughput_notifica.Provider.Mock.Contract.{Contract, mock_send-Contract}

abbrev unlucky : Luck
unlucky = record { token_expired = false; times_out = true; hex = "0badcafe" }

mock_send-Contract_example :
    Contract (email_send (λ e. "provider is down") unlucky)
    × Contract (sms_send (λ e. "provider is down") unlucky)
    × Contract (push_send (λ e. "provider is down") unlucky)
mock_send-Contract_example = mock_send-Contract (λ e. "provider is down") unlucky
