-- ===== src/Matching/Patterns.antt =====
-- The dictionaries and regular expressions of pricewatch/core/normalize.py.
use managment2_main.Base.{String, Option, none, some, List, [], ◌∷◌}

-- `BRANDS`
abbrev pub brands : List (String × String)
brands =
    ("bauer", "BAUER")
    ∷ ("ccm", "CCM")
    ∷ ("true", "TRUE")
    ∷ ("graf", "GRAF")
    ∷ ("jackson", "JACKSON")
    ∷ ("edea", "EDEA")
    ∷ ("tour", "TOUR")
    ∷ ("warrior", "WARRIOR")
    ∷ ("mission", "MISSION")
    ∷ []

-- `LEVEL_RULES`
abbrev pub level_rules : List (String × String)
level_rules =
    ("\\b(sr|senior|взросл|доросл)\\b", "SR")
    ∷ ("\\b(int|intermediate|intermidiate|підліт|подрост)\\b", "INT")
    ∷ ("\\b(jr|junior|юниор|юніор)\\b", "JR")
    ∷ ("\\b(yth|youth|детск|дитяч)\\b", "YTH")
    ∷ []

-- `PRODUCT_TYPE_KEYWORDS`
abbrev pub product_type_keywords : List (String × String)
product_type_keywords =
    ("ловушк|пастк|trapper\\b|catcher\\b|goalie\\s+glove|goalie\\s+catch", "GOALIE_GLOVE")
    ∷ ("\\bблокер\\b|\\bblocker\\b|\\bблін\\b", "GOALIE_BLOCKER")
    ∷ ("goalie\\s+stick|воротарськ\\s+ключк|воротарськ\\s+клюшк|вратарск\\s+клюшк", "GOALIE_STICK")
    ∷ ("goalie\\s+skat|воротарськ\\s+ковзан|воротарськ\\s+конь", "GOALIE_SKATES")
    ∷ ("goalie\\s+helm|воротарськ\\s+шолом|вратарск\\s+шлем", "GOALIE_HELMET")
    ∷ ("goalie\\s+pad|воротарськ\\s+щитк|вратарск\\s+щитк|leg\\s+pad", "GOALIE_PADS")
    ∷ ("goalie\\s+pant|воротарськ\\s+шорт|вратарск\\s+шорт", "GOALIE_PANTS")
    ∷ (
      "goalie\\s+chest|chest\\s+protector|воротарськ\\s+нагрудн|вратарск\\s+нагрудн",
      "GOALIE_CHEST",
    )
    ∷ ("\\bклюшк\\b|\\bключк\\b|\\bстік\\b|\\bstick\\b|\\bперо\\b|\\bтруба\\b|\\bкрюк\\b", "STICK")
    ∷ ("\\bковзан|\\bконьк|\\bskat", "SKATES")
    ∷ ("\\bкраг|\\bрукавич|\\bперчатк|\\bglove", "GLOVES")
    ∷ ("\\bщитк\\b|\\bнаколінник\\b|\\bnakolennik\\b|\\bshin\\b|\\bshin.guard\\b", "SHIN_GUARDS")
    ∷ ("\\bналокітник\\b|\\bnalocitnik\\b|\\belbow\\b|\\belbow.pad\\b", "ELBOW_PADS")
    ∷ ("\\bнагрудник\\b(?!.*воротар)|\\bshoulder\\b|\\bshoulder.pad\\b", "SHOULDER_PADS")
    ∷ ("\\bшолом\\b|\\bшлем\\b|\\bhelmet\\b", "HELMET")
    ∷ ("\\bшорти\\b|\\bшорт\\b|\\bgirdle\\b|\\bpant\\b", "PANTS")
    ∷ ("\\bneck.guard\\b|\\bneckguard\\b|\\bнашийник\\b|\\bзахист.шиї\\b", "NECK_GUARD")
    ∷ ("\\bjock\\b|\\bjill\\b|\\bракушк\\b", "JOCK_JILL")
    ∷ ("\\bwrist.guard\\b|\\bзахист.зап\\b", "WRIST_GUARD")
    ∷ ("\\bбаул\\b|\\bсумк\\b|\\bbag\\b|\\bbackpack\\b|\\bчохол\\b|\\bчехол\\b", "BAG")
    ∷ ("\\blaces\\b|\\bшнурк\\b|\\brunner\\b|\\bholder\\b|\\bsteel\\b|\\bvisor\\b", "ACCESSORY")
    ∷ ("\\btape\\b|\\bвоск\\b|\\bwax\\b|\\bbottle\\b|\\bpuck\\b|\\banti.fog\\b", "ACCESSORY")
    ∷ ("\\bmouthguard\\b|\\bзахист.рота\\b|\\bнасадк\\b", "ACCESSORY")
    ∷ []

-- `SPORT_CONTEXT_KEYWORDS`
abbrev pub sport_context_keywords : List (String × String)
sport_context_keywords =
    (
      "\\binline\\b|\\broller\\b|\\bроликов\\b|\\bstreet\\s+hockey\\b|\\bвуличний\\s+хокей\\b",
      "INLINE_HOCKEY",
    )
    ∷ ("\\bfloorball\\b|\\bфлорбол\\b", "FLOORBALL")
    ∷ ("\\bhockey\\b|\\bхокей\\b|\\bhokej\\b", "ICE_HOCKEY")
    ∷ []

-- `_FLEX_RX`
abbrev pub flex_pattern : String
flex_pattern = "\\b(flex\\s*)?(\\d{2,3})\\s*flex\\b"

-- `_FLEX_NUM_RX`
abbrev pub flex_num_pattern : String
flex_num_pattern = "\\bflex[-\\s]?(\\d{2,3})\\b"

-- `_HAND_RX`
abbrev pub hand_pattern : String
hand_pattern = "\\b(left|right|lh|rh|l\\.h\\.|r\\.h\\.|ліво|право|лів|прав)\\b"

-- `_ACCESSORY_CONTEXT_RX`
abbrev pub accessory_context_pattern : String
accessory_context_pattern =
    "\\b(баул|сумк|bag|backpack|чохол|чехол|laces|шнурк|runner|holder|steel|visor|tape|wax|bottle|puck|anti.fog|mouthguard|насадк|sharpen)\\b"

-- `_CORE_EQUIP_RX`
abbrev pub core_equip_pattern : String
core_equip_pattern =
    "\\bstick\\b|\\bклюшк|\\bключк|\\bskat|\\bковзан|\\bконь|\\bglove|\\bкраг|\\bрукавич|\\bперчатк|\\bhelmet\\b|\\bшолом|\\bшлем|\\bshin\\b|\\bщитк|\\belbow\\b|\\bналокітник|\\bshoulder\\b|\\bнагрудник|\\bpant\\b|\\bшорт|\\bpad\\b|\\bловушк|\\bпастк|\\bblocker\\b|\\bблокер\\b"

-- `GOALIE_KEYWORDS`
abbrev pub goalie_keywords : String
goalie_keywords = "воротар|вратар|\\bgoalie\\b|\\bgoalkeeper\\b"

-- `CURVE_TOKENS`
abbrev pub curve_tokens : String
curve_tokens = "\\b(P28|P29|P88|P90\\s*TM|P90TM|P92|P30|P31|P40|P46)\\b"

-- `SKATE_FIT_TOKENS`
abbrev pub skate_fit_tokens : String
skate_fit_tokens = "\\b(FIT\\s*1|FIT\\s*2|FIT\\s*3|FIT1|FIT2|FIT3|\\bD\\b|\\bEE\\b|wide|regular)\\b"

-- `NOISE_RX`
abbrev pub noise_pattern : String
noise_pattern =
    "\\b(купити|купить|новинка|акція|знижка|хіт|top|sale|official|гарантія|подарунок|уцінка|комплект)\\b"

-- `_HAND_NORM`
abbrev pub hand_norm : List (String × String)
hand_norm =
    ("left", "L")
    ∷ ("lh", "L")
    ∷ ("l.h.", "L")
    ∷ ("ліво", "L")
    ∷ ("лів", "L")
    ∷ ("right", "R")
    ∷ ("rh", "R")
    ∷ ("r.h.", "R")
    ∷ ("право", "R")
    ∷ ("прав", "R")
    ∷ []

-- `MODEL_SERIES`
abbrev pub model_series : List String
model_series =
    "VAPOR" ∷ "SUPREME" ∷ "NEXUS" ∷ "HYPERLITE" ∷ "MACH" ∷ "SHADOW" ∷ "JETSPEED" ∷ "TACKS"
    ∷ "RIBCOR" ∷ "SUPER TACKS" ∷ "CATALYST" ∷ "HZRDUS" ∷ "MISSION" ∷ "TOUR" ∷ "PRODIGY" ∷ "ELITE"
    ∷ "VIZION" ∷ "GRIPTAC" ∷ "POWERFLY" ∷ "GSX" ∷ []

-- `_COMPOUND_SERIES`
abbrev pub compound_series : List (String × Option String)
compound_series =
    ("\\bSUPER\\s+TACKS\\b", some "SUPERTACKS")
    ∷ ("\\bFT6\\s+PRO\\b", some "FT6PRO")
    ∷ ("\\bFT4\\s+PRO\\b", some "FT4PRO")
    ∷ ("\\bM5\\s+PRO\\b", some "M5PRO")
    ∷ ("\\bM50\\s+PRO\\b", some "M50PRO")
    ∷ ("\\bX5\\s+PRO\\b", some "X5PRO")
    ∷ ("\\bX4\\s+PRO\\b", some "X4PRO")
    ∷ ("\\b3X\\s+PRO\\b", some "3XPRO")
    ∷ ("\\b3S\\s+PRO\\b", some "3SPRO")
    ∷ ("\\bAS-?V\\b", some "ASV")
    ∷ ("\\bFLY-?TI\\b", some "FLYTI")
    ∷ ("\\bFLY\\s*TI\\b", some "FLYTI")
    ∷ ("\\b(\\dX)\\s*PRO\\b", none)
    ∷ []
