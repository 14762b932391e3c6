-- ===== src/Catalog/Names.antt =====
-- catalog.go: the continents and the names of the countries. A name is the list of its code points,
-- which stand in the order of its bytes.
use tor_country_manager.Shared.{
  ℕ, Bool, ◌||◌, not, List, [], ◌∷◌, Option, none, some, if◌then◌else◌, ◌==◌,
}
use tor_country_manager.Shared.Text.{Text, text, same, is_empty, to_lower, to_upper}
use tor_country_manager.Shared.Assoc.{lookup}
use tor_country_manager.Config.Defs.{normalize_code}

-- `strings.Fields` on a text whose words are separated by blanks: the word that is read and the rest.
unfoldable pub next_word : ℕ → Text × List Text → Text × List Text
next_word c (word, words) = if c == b' ' then ([], word ∷ words) else (c ∷ word, words)

unfoldable pub fields_of : Text → Text × List Text
unfolding next_word
fields_of [] = ([], [])
fields_of (c ∷ cs) = next_word c (fields_of cs)

unfoldable pub has_word : Text → Text × List Text → Bool
has_word code (word, []) = same word code
has_word code (word, w ∷ ws) = same word code || has_word code (w, ws)

-- One call of `add`: the continent and its codes.
abbrev pub Continent : Type 0
Continent = Text × Text

-- The calls of `add`, the last first, since a later one overwrites an earlier one.
abbrev pub continents : List Continent
continents =
    (text "南极洲", text "AQ BV TF HM GS")
    ∷ (text "大洋洲", text "AS AU CK FJ PF GU KI MH FM NR NC NZ NU MP PW PG WS SB TK TO TV VU WF")
    ∷ (
      text "非洲",
      text
          "DZ AO BJ BW BF BI CV CM CF TD KM CG CD CI DJ EG GQ ER SZ ET GA GM GH GN GW KE LS LR LY MG MW ML MR MU YT MA MZ NA NE NG RE RW SH ST SN SC SL SO ZA SS SD TZ TG TN UG EH ZM ZW",
    )
    ∷ (text "南美洲", text "AR BO BR CL CO EC FK GF GY PY PE SR UY VE")
    ∷ (
      text "北美洲",
      text "AG BS BB BZ BM CA CR CU DM DO SV GL GD GT HT HN JM MX NI PA PM KN LC VC TT US",
    )
    ∷ (
      text "欧洲",
      text
          "AL AD AT BY BE BA BG HR CZ DK EE FI FR DE GR HU IS IE IT LV LI LT LU MT MD MC ME NL MK NO PL PT RO RU SM RS SK SI ES SE CH UA GB VA XK",
    )
    ∷ (
      text "亚洲",
      text
          "AF AM AZ BH BD BT BN KH CN CY GE HK IN ID IR IQ IL JP JO KZ KW KG LA LB MO MY MV MN MM NP KP KR OM PK PS PH QA SA SG LK SY TW TJ TH TL TR TM AE UZ VN YE",
    )
    ∷ []

unfoldable pub find_continent : Text → List Continent → Option Text
unfolding fields_of has_word
find_continent code [] = none
find_continent code ((name, codes) ∷ rest) =
    let others = find_continent code rest in
    if has_word code (fields_of (to_lower codes)) then some name else others

abbrev name_or : Option Text → Text → Text
name_or none other = other
name_or (some name) other = name

unfoldable pub continent_for : Text → Text
unfolding find_continent
continent_for code = name_or (find_continent (normalize_code code) continents) (text "其他")

unfoldable pub continent_order : Text → ℕ
continent_order name =
    if same name (text "亚洲")
    then 0
    else if same name (text "欧洲")
    then 1
    else if same name (text "北美洲")
    then 2
    else if same name (text "南美洲")
    then 3
    else if same name (text "非洲")
    then 4
    else if same name (text "大洋洲")
    then 5
    else if same name (text "南极洲")
    then 6
    else if same name (text "其他")
    then 7
    else 99

abbrev pub chinese_country_names : List (Text × Text)
chinese_country_names =
    (text "us", text "美国")
    ∷ (text "ca", text "加拿大")
    ∷ (text "mx", text "墨西哥")
    ∷ (text "cr", text "哥斯达黎加")
    ∷ (text "pa", text "巴拿马")
    ∷ (text "gt", text "危地马拉")
    ∷ (text "hn", text "洪都拉斯")
    ∷ (text "sv", text "萨尔瓦多")
    ∷ (text "do", text "多米尼加")
    ∷ (text "br", text "巴西")
    ∷ (text "ar", text "阿根廷")
    ∷ (text "cl", text "智利")
    ∷ (text "co", text "哥伦比亚")
    ∷ (text "pe", text "秘鲁")
    ∷ (text "uy", text "乌拉圭")
    ∷ (text "py", text "巴拉圭")
    ∷ (text "ec", text "厄瓜多尔")
    ∷ (text "ve", text "委内瑞拉")
    ∷ (text "gb", text "英国")
    ∷ (text "de", text "德国")
    ∷ (text "fr", text "法国")
    ∷ (text "nl", text "荷兰")
    ∷ (text "se", text "瑞典")
    ∷ (text "no", text "挪威")
    ∷ (text "fi", text "芬兰")
    ∷ (text "dk", text "丹麦")
    ∷ (text "is", text "冰岛")
    ∷ (text "ie", text "爱尔兰")
    ∷ (text "be", text "比利时")
    ∷ (text "lu", text "卢森堡")
    ∷ (text "ch", text "瑞士")
    ∷ (text "at", text "奥地利")
    ∷ (text "es", text "西班牙")
    ∷ (text "pt", text "葡萄牙")
    ∷ (text "it", text "意大利")
    ∷ (text "pl", text "波兰")
    ∷ (text "cz", text "捷克")
    ∷ (text "sk", text "斯洛伐克")
    ∷ (text "hu", text "匈牙利")
    ∷ (text "ro", text "罗马尼亚")
    ∷ (text "bg", text "保加利亚")
    ∷ (text "gr", text "希腊")
    ∷ (text "hr", text "克罗地亚")
    ∷ (text "si", text "斯洛文尼亚")
    ∷ (text "rs", text "塞尔维亚")
    ∷ (text "ba", text "波黑")
    ∷ (text "me", text "黑山")
    ∷ (text "mk", text "北马其顿")
    ∷ (text "al", text "阿尔巴尼亚")
    ∷ (text "ee", text "爱沙尼亚")
    ∷ (text "lv", text "拉脱维亚")
    ∷ (text "lt", text "立陶宛")
    ∷ (text "ua", text "乌克兰")
    ∷ (text "md", text "摩尔多瓦")
    ∷ (text "by", text "白俄罗斯")
    ∷ (text "ru", text "俄罗斯")
    ∷ (text "cn", text "中国")
    ∷ (text "jp", text "日本")
    ∷ (text "sg", text "新加坡")
    ∷ (text "in", text "印度")
    ∷ (text "id", text "印度尼西亚")
    ∷ (text "my", text "马来西亚")
    ∷ (text "th", text "泰国")
    ∷ (text "ph", text "菲律宾")
    ∷ (text "kr", text "韩国")
    ∷ (text "hk", text "中国香港")
    ∷ (text "tw", text "中国台湾")
    ∷ (text "vn", text "越南")
    ∷ (text "il", text "以色列")
    ∷ (text "tr", text "土耳其")
    ∷ (text "cy", text "塞浦路斯")
    ∷ (text "ae", text "阿联酋")
    ∷ (text "kz", text "哈萨克斯坦")
    ∷ (text "ge", text "格鲁吉亚")
    ∷ (text "am", text "亚美尼亚")
    ∷ (text "az", text "阿塞拜疆")
    ∷ (text "au", text "澳大利亚")
    ∷ (text "nz", text "新西兰")
    ∷ (text "za", text "南非")
    ∷ (text "ma", text "摩洛哥")
    ∷ (text "tn", text "突尼斯")
    ∷ (text "eg", text "埃及")
    ∷ (text "ng", text "尼日利亚")
    ∷ (text "ke", text "肯尼亚")
    ∷ (text "gh", text "加纳")
    ∷ (text "sc", text "塞舌尔")
    ∷ []

unfoldable pub country_display_name : (code fallback : Text) → Text
country_display_name code fallback =
    name_or (lookup (normalize_code code) chinese_country_names)
      (if not (is_empty fallback) then fallback else to_upper code)
