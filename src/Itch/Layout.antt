-- ===== src/Itch/Layout.antt =====
-- host/pymodel/itch_decode.py, `MESSAGE_LAYOUT`, and host/pymodel/itch_pkg_mirror.py, `MSG_LEN`: the
-- fields of each message in wire order. A field name is a number, a type code its code point.
use fpga_algotrading.Prelude.{ℕ, List, [], ◌∷◌}
use fpga_algotrading.Dict.{Dict}

pub data FieldKind : Type 0 where
  uint char alpha : FieldKind

pub record FieldSpec : Type 0 where
  pub name : ℕ
  pub width : ℕ
  pub kind : FieldKind

abbrev pub msg_type : ℕ
msg_type = 0

abbrev pub stock_locate : ℕ
stock_locate = 1

abbrev pub tracking_number : ℕ
tracking_number = 2

abbrev pub timestamp : ℕ
timestamp = 3

abbrev pub event_code : ℕ
event_code = 4

abbrev pub stock : ℕ
stock = 5

abbrev pub market_category : ℕ
market_category = 6

abbrev pub financial_status_indicator : ℕ
financial_status_indicator = 7

abbrev pub round_lot_size : ℕ
round_lot_size = 8

abbrev pub round_lots_only : ℕ
round_lots_only = 9

abbrev pub issue_classification : ℕ
issue_classification = 10

abbrev pub issue_subtype : ℕ
issue_subtype = 11

abbrev pub authenticity : ℕ
authenticity = 12

abbrev pub short_sale_threshold_indicator : ℕ
short_sale_threshold_indicator = 13

abbrev pub ipo_flag : ℕ
ipo_flag = 14

abbrev pub luld_reference_price_tier : ℕ
luld_reference_price_tier = 15

abbrev pub etp_flag : ℕ
etp_flag = 16

abbrev pub etp_leverage_factor : ℕ
etp_leverage_factor = 17

abbrev pub inverse_indicator : ℕ
inverse_indicator = 18

abbrev pub trading_state : ℕ
trading_state = 19

abbrev pub reserved : ℕ
reserved = 20

abbrev pub reason : ℕ
reason = 21

abbrev pub reg_sho_action : ℕ
reg_sho_action = 22

abbrev pub mpid : ℕ
mpid = 23

abbrev pub primary_market_maker : ℕ
primary_market_maker = 24

abbrev pub market_maker_mode : ℕ
market_maker_mode = 25

abbrev pub market_participant_state : ℕ
market_participant_state = 26

abbrev pub level_1 : ℕ
level_1 = 27

abbrev pub level_2 : ℕ
level_2 = 28

abbrev pub level_3 : ℕ
level_3 = 29

abbrev pub breached_level : ℕ
breached_level = 30

abbrev pub ipo_quotation_release_time : ℕ
ipo_quotation_release_time = 31

abbrev pub ipo_quotation_release_qualifier : ℕ
ipo_quotation_release_qualifier = 32

abbrev pub ipo_price : ℕ
ipo_price = 33

abbrev pub auction_collar_reference_price : ℕ
auction_collar_reference_price = 34

abbrev pub upper_auction_collar_price : ℕ
upper_auction_collar_price = 35

abbrev pub lower_auction_collar_price : ℕ
lower_auction_collar_price = 36

abbrev pub auction_collar_extension : ℕ
auction_collar_extension = 37

abbrev pub market_code : ℕ
market_code = 38

abbrev pub operational_halt_action : ℕ
operational_halt_action = 39

abbrev pub order_reference_number : ℕ
order_reference_number = 40

abbrev pub buy_sell_indicator : ℕ
buy_sell_indicator = 41

abbrev pub shares : ℕ
shares = 42

abbrev pub price : ℕ
price = 43

abbrev pub attribution : ℕ
attribution = 44

abbrev pub executed_shares : ℕ
executed_shares = 45

abbrev pub match_number : ℕ
match_number = 46

abbrev pub printable : ℕ
printable = 47

abbrev pub execution_price : ℕ
execution_price = 48

abbrev pub cancelled_shares : ℕ
cancelled_shares = 49

abbrev pub original_order_reference_number : ℕ
original_order_reference_number = 50

abbrev pub new_order_reference_number : ℕ
new_order_reference_number = 51

abbrev pub cross_price : ℕ
cross_price = 52

abbrev pub cross_type : ℕ
cross_type = 53

abbrev pub paired_shares : ℕ
paired_shares = 54

abbrev pub imbalance_shares : ℕ
imbalance_shares = 55

abbrev pub imbalance_direction : ℕ
imbalance_direction = 56

abbrev pub far_price : ℕ
far_price = 57

abbrev pub near_price : ℕ
near_price = 58

abbrev pub current_reference_price : ℕ
current_reference_price = 59

abbrev pub price_variation_indicator : ℕ
price_variation_indicator = 60

abbrev pub interest_flag : ℕ
interest_flag = 61

abbrev pub field : ℕ → ℕ → FieldKind → FieldSpec
field name width kind = record { name = name; width = width; kind = kind }

-- The prefix of every message.
abbrev pub common_prefix : List FieldSpec
common_prefix =
    field msg_type 1 char
    ∷ field stock_locate 2 uint
    ∷ field tracking_number 2 uint
    ∷ field timestamp 6 uint
    ∷ []

abbrev pub msg_system_event_body : List FieldSpec
msg_system_event_body = field event_code 1 char ∷ []

abbrev pub msg_stock_directory_body : List FieldSpec
msg_stock_directory_body =
    field stock 8 alpha
    ∷ field market_category 1 char
    ∷ field financial_status_indicator 1 char
    ∷ field round_lot_size 4 uint
    ∷ field round_lots_only 1 char
    ∷ field issue_classification 1 char
    ∷ field issue_subtype 2 alpha
    ∷ field authenticity 1 char
    ∷ field short_sale_threshold_indicator 1 char
    ∷ field ipo_flag 1 char
    ∷ field luld_reference_price_tier 1 char
    ∷ field etp_flag 1 char
    ∷ field etp_leverage_factor 4 uint
    ∷ field inverse_indicator 1 char
    ∷ []

abbrev pub msg_trading_action_body : List FieldSpec
msg_trading_action_body =
    field stock 8 alpha
    ∷ field trading_state 1 char
    ∷ field reserved 1 char
    ∷ field reason 4 alpha
    ∷ []

abbrev pub msg_reg_sho_body : List FieldSpec
msg_reg_sho_body = field stock 8 alpha ∷ field reg_sho_action 1 char ∷ []

abbrev pub msg_mkt_participant_body : List FieldSpec
msg_mkt_participant_body =
    field mpid 4 alpha
    ∷ field stock 8 alpha
    ∷ field primary_market_maker 1 char
    ∷ field market_maker_mode 1 char
    ∷ field market_participant_state 1 char
    ∷ []

abbrev pub msg_mwcb_decline_body : List FieldSpec
msg_mwcb_decline_body = field level_1 8 uint ∷ field level_2 8 uint ∷ field level_3 8 uint ∷ []

abbrev pub msg_mwcb_status_body : List FieldSpec
msg_mwcb_status_body = field breached_level 1 char ∷ []

abbrev pub msg_ipo_quoting_body : List FieldSpec
msg_ipo_quoting_body =
    field stock 8 alpha
    ∷ field ipo_quotation_release_time 4 uint
    ∷ field ipo_quotation_release_qualifier 1 char
    ∷ field ipo_price 4 uint
    ∷ []

abbrev pub msg_luld_collar_body : List FieldSpec
msg_luld_collar_body =
    field stock 8 alpha
    ∷ field auction_collar_reference_price 4 uint
    ∷ field upper_auction_collar_price 4 uint
    ∷ field lower_auction_collar_price 4 uint
    ∷ field auction_collar_extension 4 uint
    ∷ []

abbrev pub msg_operational_halt_body : List FieldSpec
msg_operational_halt_body =
    field stock 8 alpha ∷ field market_code 1 char ∷ field operational_halt_action 1 char ∷ []

abbrev pub msg_add_order_body : List FieldSpec
msg_add_order_body =
    field order_reference_number 8 uint
    ∷ field buy_sell_indicator 1 char
    ∷ field shares 4 uint
    ∷ field stock 8 alpha
    ∷ field price 4 uint
    ∷ []

abbrev pub msg_add_order_mpid_body : List FieldSpec
msg_add_order_mpid_body =
    field order_reference_number 8 uint
    ∷ field buy_sell_indicator 1 char
    ∷ field shares 4 uint
    ∷ field stock 8 alpha
    ∷ field price 4 uint
    ∷ field attribution 4 alpha
    ∷ []

abbrev pub msg_order_executed_body : List FieldSpec
msg_order_executed_body =
    field order_reference_number 8 uint
    ∷ field executed_shares 4 uint
    ∷ field match_number 8 uint
    ∷ []

abbrev pub msg_order_exec_price_body : List FieldSpec
msg_order_exec_price_body =
    field order_reference_number 8 uint
    ∷ field executed_shares 4 uint
    ∷ field match_number 8 uint
    ∷ field printable 1 char
    ∷ field execution_price 4 uint
    ∷ []

abbrev pub msg_order_cancel_body : List FieldSpec
msg_order_cancel_body = field order_reference_number 8 uint ∷ field cancelled_shares 4 uint ∷ []

abbrev pub msg_order_delete_body : List FieldSpec
msg_order_delete_body = field order_reference_number 8 uint ∷ []

abbrev pub msg_order_replace_body : List FieldSpec
msg_order_replace_body =
    field original_order_reference_number 8 uint
    ∷ field new_order_reference_number 8 uint
    ∷ field shares 4 uint
    ∷ field price 4 uint
    ∷ []

abbrev pub msg_trade_body : List FieldSpec
msg_trade_body =
    field order_reference_number 8 uint
    ∷ field buy_sell_indicator 1 char
    ∷ field shares 4 uint
    ∷ field stock 8 alpha
    ∷ field price 4 uint
    ∷ field match_number 8 uint
    ∷ []

abbrev pub msg_cross_trade_body : List FieldSpec
msg_cross_trade_body =
    field shares 8 uint
    ∷ field stock 8 alpha
    ∷ field cross_price 4 uint
    ∷ field match_number 8 uint
    ∷ field cross_type 1 char
    ∷ []

abbrev pub msg_broken_trade_body : List FieldSpec
msg_broken_trade_body = field match_number 8 uint ∷ []

abbrev pub msg_noii_body : List FieldSpec
msg_noii_body =
    field paired_shares 8 uint
    ∷ field imbalance_shares 8 uint
    ∷ field imbalance_direction 1 char
    ∷ field stock 8 alpha
    ∷ field far_price 4 uint
    ∷ field near_price 4 uint
    ∷ field current_reference_price 4 uint
    ∷ field cross_type 1 char
    ∷ field price_variation_indicator 1 char
    ∷ []

abbrev pub msg_rpii_body : List FieldSpec
msg_rpii_body = field stock 8 alpha ∷ field interest_flag 1 char ∷ []

-- `MESSAGE_LAYOUT`, each without the common prefix
abbrev pub message_bodies : Dict (List FieldSpec)
message_bodies =
    (b'S', msg_system_event_body)
    ∷ (b'R', msg_stock_directory_body)
    ∷ (b'H', msg_trading_action_body)
    ∷ (b'Y', msg_reg_sho_body)
    ∷ (b'L', msg_mkt_participant_body)
    ∷ (b'V', msg_mwcb_decline_body)
    ∷ (b'W', msg_mwcb_status_body)
    ∷ (b'K', msg_ipo_quoting_body)
    ∷ (b'J', msg_luld_collar_body)
    ∷ (b'h', msg_operational_halt_body)
    ∷ (b'A', msg_add_order_body)
    ∷ (b'F', msg_add_order_mpid_body)
    ∷ (b'E', msg_order_executed_body)
    ∷ (b'C', msg_order_exec_price_body)
    ∷ (b'X', msg_order_cancel_body)
    ∷ (b'D', msg_order_delete_body)
    ∷ (b'U', msg_order_replace_body)
    ∷ (b'P', msg_trade_body)
    ∷ (b'Q', msg_cross_trade_body)
    ∷ (b'B', msg_broken_trade_body)
    ∷ (b'I', msg_noii_body)
    ∷ (b'N', msg_rpii_body)
    ∷ []

-- `MSG_LEN`
abbrev pub msg_len : Dict ℕ
msg_len =
    (b'S', 12)
    ∷ (b'R', 39)
    ∷ (b'H', 25)
    ∷ (b'Y', 20)
    ∷ (b'L', 26)
    ∷ (b'V', 35)
    ∷ (b'W', 12)
    ∷ (b'K', 28)
    ∷ (b'J', 35)
    ∷ (b'h', 21)
    ∷ (b'A', 36)
    ∷ (b'F', 40)
    ∷ (b'E', 31)
    ∷ (b'C', 36)
    ∷ (b'X', 23)
    ∷ (b'D', 19)
    ∷ (b'U', 35)
    ∷ (b'P', 44)
    ∷ (b'Q', 40)
    ∷ (b'B', 19)
    ∷ (b'I', 50)
    ∷ (b'N', 20)
    ∷ []
